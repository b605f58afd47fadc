-- ===== src/Streaming/Pump/Extends.antt =====
-- What the pump's operations add to the frames that the sink was given.
use mathlib.Core.List.{append-nil, append_assoc}
use neemata.Common.{
  ℕ, zero, suc, ◌+◌, ◌-◌, ◌≡◌, refl, sym, ap, ◌∙◌, Bool, true, false, not, ◌&&◌, ◌||◌, Option, none,
  some, List, [], ◌∷◌, ◌++◌, arith, ltb, ◌==◌, if_intro, length, take, drop,
}
use neemata.Wire.Bytes.{Bytes}
use neemata.Wire.Utf8.{Text}
use neemata.Streaming.Pump.{
  Frame, chunk, end, error, Pump, fail, finish, Turn, stop, go, advance, pump_fuel, settled,
  deliver, spend, read_source, turn_from, pump_loop, pump, grant_open, grant, destroy, is_nil,
  readable, source_end, source_error, step, drop_reason, max_stream_credits,
}

-- Chunks, and behind them a closing frame exactly if the stream is finished.
abbrev pub closes : Bool → List Frame → Bool
closes finished [] = not finished
closes finished (chunk b ∷ fs) = closes finished fs
closes finished (end ∷ []) = finished
closes finished (end ∷ f ∷ fs) = false
closes finished (error r ∷ []) = finished
closes finished (error r ∷ f ∷ fs) = false

-- A stream that was finished already stays so, and sends nothing.
abbrev pub ends : Bool → Bool → List Frame → Bool
ends true after [] = after
ends true after (f ∷ fs) = false
ends false after fs = closes after fs

pub record Extends (s t : Pump) : Type 0 where
  pub frames : List Frame
  pub sent : t.sent ≡ s.sent ++ frames
  pub ending : ends s.finished t.finished frames ≡ true

closes-append :
    (b c : Bool) (fs gs : List Frame)
    → closes b fs ≡ true
    → ends b c gs ≡ true
    → closes c (fs ++ gs) ≡ true
closes-append true c [] gs h e = absurd (ground arith)
closes-append false c [] gs h e = e
closes-append b c (chunk x ∷ fs) gs h e = closes-append b c fs gs h e
closes-append true c (end ∷ []) [] h e = e
closes-append true c (end ∷ []) (g ∷ gs) h e = absurd (ground arith)
closes-append false c (end ∷ []) gs h e = absurd (ground arith)
closes-append b c (end ∷ f ∷ fs) gs h e = absurd (ground arith)
closes-append true c (error r ∷ []) [] h e = e
closes-append true c (error r ∷ []) (g ∷ gs) h e = absurd (ground arith)
closes-append false c (error r ∷ []) gs h e = absurd (ground arith)
closes-append b c (error r ∷ f ∷ fs) gs h e = absurd (ground arith)

ends-append :
    (a b c : Bool) (fs gs : List Frame)
    → ends a b fs ≡ true
    → ends b c gs ≡ true
    → ends a c (fs ++ gs) ≡ true
ends-append false b c fs gs h e = closes-append b c fs gs h e
ends-append true true c [] gs h e = e
ends-append true false c [] gs h e = absurd (ground arith)
ends-append true b c (f ∷ fs) gs h e = absurd (ground arith)

both : {s t u : Pump} → Extends s t → Extends t u → Extends s u
both {s} {t} {u} a b = record {
  frames = a.frames ++ b.frames;
  sent = b.sent ∙ ap (λ l. l ++ b.frames) a.sent ∙ append_assoc s.sent a.frames b.frames;
  ending = ends-append s.finished t.finished u.finished a.frames b.frames a.ending b.ending;
}

same : (s : Pump) → Extends s s
same s = record { frames = []; sent = sym (append-nil s.sent); ending = none_sent s.finished }
  where
    none_sent : (f : Bool) → ends f f [] ≡ true
    none_sent true = refl
    none_sent false = refl

pub fail-Extends : (reason : Text) (s : Pump) → Extends s (fail reason s)
unfolding fail
fail-Extends reason s =
    if_intro (Extends s) s.finished s _ (λ _. same s)
      (λ f. record {
        frames = error reason ∷ [];
        sent = refl;
        ending = ap (λ b. ends b true (error reason ∷ [])) f;
      })

finish-Extends : (s : Pump) → Extends s (finish s)
unfolding finish
finish-Extends s =
    if_intro (Extends s) s.finished s _ (λ _. same s)
      (λ f. record { frames = end ∷ []; sent = refl; ending = ap (λ b. ends b true (end ∷ [])) f })

module _ (drops : List Frame → Bytes → Bool) where
  deliver-Extends :
      (bytes : Bytes) (s : Pump) → s.finished ≡ false → Extends s (deliver drops bytes s)
  unfolding deliver
  deliver-Extends bytes s f =
      let t : Pump = record s {
        credits = s.credits - length bytes;
        sent = s.sent ++ chunk bytes ∷ [];
      } in
      let first : Extends s t = record {
        frames = chunk bytes ∷ [];
        sent = refl;
        ending = ap (λ b. ends b b (chunk bytes ∷ [])) f;
      } in
      if_intro (Extends s) (drops s.sent bytes) (fail drop_reason t) t
        (λ _. both first (fail-Extends drop_reason t)) (λ _. first)

  abbrev TurnExtends : Pump → Turn → Type 0
  TurnExtends s (stop t) = Extends s t
  TurnExtends s (go t) = Extends s t

  spend-Extends :
      (bytes : Bytes) (s : Pump) → s.finished ≡ false → TurnExtends s (spend drops bytes s)
  unfolding spend
  spend-Extends bytes s f =
      let n = same s in
      let d =
        deliver-Extends (take s.credits bytes) (record s { buffered = some (drop s.credits bytes) })
          f in
      if_intro (TurnExtends s) (s.credits == 0) _ _
        (λ _. record { frames = n.frames; sent = n.sent; ending = n.ending })
        (λ _.
          if_intro (TurnExtends s) (ltb s.credits (length bytes)) _ _
            (λ _. record { frames = d.frames; sent = d.sent; ending = d.ending })
            (λ _. deliver-Extends bytes s f))

  -- A turn from a state with the same frames.
  shifted :
      (s t : Pump) (r : Turn)
      → t.sent ≡ s.sent
      → t.finished ≡ s.finished
      → TurnExtends t r
      → TurnExtends s r
  shifted s t (stop u) e f x = record {
    frames = x.frames;
    sent = x.sent ∙ ap (λ l. l ++ x.frames) e;
    ending = sym (ap (λ b. ends b u.finished x.frames) f) ∙ x.ending;
  }
  shifted s t (go u) e f x = record {
    frames = x.frames;
    sent = x.sent ∙ ap (λ l. l ++ x.frames) e;
    ending = sym (ap (λ b. ends b u.finished x.frames) f) ∙ x.ending;
  }

  read_source-Extends :
      (reads : List Bytes) (s : Pump)
      → s.finished ≡ false
      → TurnExtends s (read_source drops reads s)
  unfolding read_source
  read_source-Extends [] s f =
      if_intro (Extends s) s.source_ended (finish s) s (λ _. finish-Extends s) (λ _. same s)
  read_source-Extends (r ∷ rs) s f =
      shifted s (record s { reads = rs }) (spend drops r (record s { reads = rs })) refl refl
        (spend-Extends r (record s { reads = rs }) f)

  turn_from-Extends :
      (o : Option Bytes) (s : Pump) → s.finished ≡ false → TurnExtends s (turn_from drops o s)
  unfolding turn_from
  turn_from-Extends (some bytes) s f =
      shifted s (record s { buffered = none }) (spend drops bytes (record s { buffered = none }))
        refl refl (spend-Extends bytes (record s { buffered = none }) f)
  turn_from-Extends none s f =
      if_intro (TurnExtends s) (s.credits == 0) _ (read_source drops s.reads s)
        (λ _.
          if_intro (Extends s) (s.source_ended && is_nil s.reads) (finish s) s
            (λ _. finish-Extends s) (λ _. same s))
        (λ _. read_source-Extends s.reads s f)

  abbrev MayExtend : Pump → Option Pump → Type 0
  MayExtend s none = Unit {0}
  MayExtend s (some t) = Extends s t

  after_turn :
      (s : Pump) (rest : Pump → Option Pump) (r : Turn)
      → TurnExtends s r
      → ((t : Pump) → MayExtend t (rest t))
      → MayExtend s (advance rest r)
  unfolding advance
  after_turn s rest (stop t) x h = x
  after_turn s rest (go t) x h = chained (rest t) (h t)
    where
      chained : (o : Option Pump) → MayExtend t o → MayExtend s o
      chained none y = tt
      chained (some u) y = both x y

  pump_loop-Extends : (fuel : ℕ) (s : Pump) → MayExtend s (pump_loop drops fuel s)
  unfolding pump_loop
  pump_loop-Extends zero s = tt
  pump_loop-Extends (suc fuel) s =
      if_intro (MayExtend s) s.finished (some s)
        (advance (pump_loop drops fuel) (turn_from drops s.buffered s)) (λ _. same s)
        (λ f.
          after_turn s (pump_loop drops fuel) (turn_from drops s.buffered s)
            (turn_from-Extends s.buffered s f) (pump_loop-Extends fuel))

  settled-Extends : (s : Pump) (o : Option Pump) → MayExtend s o → Extends s (settled s o)
  settled-Extends s none x = same s
  settled-Extends s (some t) x = record { frames = x.frames; sent = x.sent; ending = x.ending }

  pump-Extends : (s : Pump) → Extends s (pump drops s)
  unfolding pump
  pump-Extends s =
      if_intro (Extends s) (s.pumping || s.finished || not s.granted) s _ (λ _. same s)
        (λ _. settled-Extends s (pump_loop drops (pump_fuel s) (record s { pumping = true })) (
          begun (pump_loop drops (pump_fuel s) (record s { pumping = true }))
            (pump_loop-Extends (pump_fuel s) (record s { pumping = true }))))
    where
      begun : (o : Option Pump) → MayExtend (record s { pumping = true }) o → MayExtend s o
      begun none x = tt
      begun (some t) x = record { frames = x.frames; sent = x.sent; ending = x.ending }

  grant_open-Extends :
      (o : Option Text) (size : ℕ) (s : Pump) → Extends s (grant_open drops o size s)
  unfolding grant_open
  grant_open-Extends (some reason) size s =
      let x = fail-Extends reason (record s { granted = true }) in
      record { frames = x.frames; sent = x.sent; ending = x.ending }
  grant_open-Extends none size s =
      let x = pump-Extends (record s { granted = true; credits = s.credits + size }) in
      record { frames = x.frames; sent = x.sent; ending = x.ending }

  pub grant-Extends : (size : ℕ) (s : Pump) → Extends s (grant drops size s).0
  unfolding grant
  grant-Extends size s =
      if_intro (λ (r : Pump × Bool). Extends s r.0) (s.finished || size == 0) _ _ (λ _. same s)
        (λ _.
          if_intro (λ (r : Pump × Bool). Extends s r.0) (ltb max_stream_credits (s.credits + size))
            _ _ (λ _. same s) (λ _. grant_open-Extends s.pending_error size s))

  -- The source's own events.
  pub readable-Extends : (bytes : Bytes) (s : Pump) → Extends s (step drops s (readable bytes))
  unfolding step
  readable-Extends bytes s =
      let x = pump-Extends (record s { reads = s.reads ++ bytes ∷ [] }) in
      record { frames = x.frames; sent = x.sent; ending = x.ending }

  pub source_end-Extends : (s : Pump) → Extends s (step drops s source_end)
  unfolding step
  source_end-Extends s =
      let x = pump-Extends (record s { source_ended = true }) in
      record { frames = x.frames; sent = x.sent; ending = x.ending }

  pub source_error-Extends :
      (reason : Text) (s : Pump) → Extends s (step drops s (source_error reason))
  unfolding step
  source_error-Extends reason s =
      let n = same s in
      if_intro (Extends s) (not s.granted && not s.finished) _ (fail reason s)
        (λ _. record { frames = n.frames; sent = n.sent; ending = n.ending })
        (λ _. fail-Extends reason s)

  -- A stream that is destroyed with an error is finished.
  pub destroy-Extends : (reason : Text) (s : Pump) → Extends s (destroy drops (some reason) s)
  unfolding destroy
  destroy-Extends reason s = fail-Extends reason s

  pub finished-destroy :
      (reason : Text) (s : Pump) → (destroy drops (some reason) s).finished ≡ true
  unfolding destroy fail
  finished-destroy reason s =
      if_intro (λ (t : Pump). t.finished ≡ true) s.finished s _ (λ f. f) (λ _. refl)

  pub sent-destroy :
      (reason : Text) (s : Pump)
      → s.finished ≡ false
      → (destroy drops (some reason) s).sent ≡ s.sent ++ error reason ∷ []
  unfolding destroy fail
  sent-destroy reason s f = rw f refl

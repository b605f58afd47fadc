-- ===== src/Streaming/Pump/Turns.antt =====
-- What one turn of the pump keeps: the order of the bytes, the credit, the shape of the frames.
use mathlib.Core.List.{append-nil, append_assoc}
use neemata.Common.{
  ℕ, zero, suc, ◌-◌, ◌≤◌, ◌<◌, ◌≡◌, refl, sym, ap, ◌∙◌, ◌⊎◌, inl, inr, Bool, true, false, ◌&&◌,
  Option, none, some, List, [], ◌∷◌, ◌++◌, arith, ltb, ◌==◌, ==_iff, Bool-cases, if_intro,
  if◌then◌else◌, length, take, drop, length-append, take-append-drop, length-take-le,
}
use neemata.Wire.Bytes.{Bytes, flatten}
use neemata.Streaming.Pump.{
  Frame, chunk, Pump, Turn, stop, go, fail, finish, deliver, spend, read_source, turn_from,
  pump_loop, advance, is_nil, drop_reason,
}
use neemata.Streaming.Pump.Frames.{
  bytes_sent, held, waiting, bytes_sent-snoc, AllChunks-snoc, open-IsClosedOnce, left_to_do, IsIdle,
  Inv, Holding, fail-Inv, finish-Inv,
}

module _ (drops : List Frame → Bytes → Bool) (source : Bytes) (total : ℕ) where
  deliver-Inv :
      (bytes : Bytes) (s : Pump)
      → length bytes ≤ s.credits
      → Holding source total bytes (waiting s) s
      → Inv source total (deliver drops bytes s)
  unfolding deliver
  deliver-Inv bytes s fits h = elim (Bool-cases (drops s.sent bytes)) [
    | inl e ↦ rw e (fail-Inv source total drop_reason t t-Inv)
    | inr e ↦ rw e t-Inv
  ]
    where
      t : Pump
      t = record s { credits = s.credits - length bytes; sent = s.sent ++ chunk bytes ∷ [] }

      t-kept : bytes_sent t.sent ++ waiting t ≡ source
      t-kept = rw (bytes_sent-snoc s.sent (chunk bytes), append-nil) h.kept

      t-Inv : Inv source total t
      t-Inv = record {
        in_order = (waiting t, t-kept);
        kept = λ e. t-kept;
        spent =
            rw (bytes_sent-snoc s.sent (chunk bytes), append-nil, length-append)
              (omega (arith, h.spent));
        silent = λ e. cc (e, h.granted);
        chunks = λ e. AllChunks-snoc s.sent bytes h.chunks;
        closed = open-IsClosedOnce t.sent (AllChunks-snoc s.sent bytes h.chunks);
      }

  deliver-granted : (bytes : Bytes) (s : Pump) → (deliver drops bytes s).granted ≡ s.granted
  unfolding deliver fail
  deliver-granted bytes s = ground arith

  deliver-left :
      (bytes : Bytes) (s : Pump)
      → (length bytes ≡ s.credits) ⊎ (s.buffered ≡ none)
      → left_to_do (deliver drops bytes s) ≤ length s.reads
  unfolding deliver fail
  deliver-left bytes s h = ground arith

  -- What a turn ends in: a state that keeps the invariant, with less left to do where it goes on,
  -- and with no credit or nothing to send where it returns.
  abbrev pub Keeps : ℕ → Turn → Type 0
  Keeps bound (stop t) = Inv source total t × IsIdle t
  Keeps bound (go t) = Inv source total t × (t.granted ≡ true) × (left_to_do t < bound)

  -- The part of a chunk that the credit covers, with the remainder kept back.
  part-Holding :
      (bytes rest : Bytes) (s : Pump)
      → Holding source total bytes rest s
      → Holding source total
          (take s.credits bytes)
          (drop s.credits bytes ++ rest)
          (record s { buffered = some (drop s.credits bytes) })
  part-Holding bytes rest s h = record {
    kept =
        sym (append_assoc (bytes_sent s.sent ++ take s.credits bytes) (drop s.credits bytes) rest)
        ∙ ap (λ l. l ++ rest) (append_assoc (bytes_sent s.sent) (take s.credits bytes) _)
        ∙ ap (λ l. bytes_sent s.sent ++ l ++ rest) (take-append-drop s.credits bytes)
        ∙ h.kept;
    spent = h.spent;
    granted = h.granted;
    chunks = h.chunks;
  }

  kept_back-Inv :
      (bytes : Bytes) (s : Pump)
      → Holding source total bytes (flatten s.reads) s
      → Inv source total (record s { buffered = some bytes })
  kept_back-Inv bytes s h = record {
    in_order = (bytes ++ flatten s.reads, all);
    kept = λ e. all;
    spent = h.spent;
    silent = λ e. cc (e, h.granted);
    chunks = λ e. h.chunks;
    closed = open-IsClosedOnce s.sent h.chunks;
  }
    where
      all : bytes_sent s.sent ++ (bytes ++ flatten s.reads) ≡ source
      all = sym (append_assoc (bytes_sent s.sent) bytes (flatten s.reads)) ∙ h.kept

  whole-Holding :
      (bytes : Bytes) (s : Pump)
      → s.buffered ≡ none
      → Holding source total bytes (flatten s.reads) s
      → Holding source total bytes (waiting s) s
  whole-Holding bytes s e h = record {
    kept = ap (λ b. bytes_sent s.sent ++ bytes ++ (held b ++ flatten s.reads)) e ∙ h.kept;
    spent = h.spent;
    granted = h.granted;
    chunks = h.chunks;
  }

  spend-Keeps :
      (bound : ℕ) (bytes : Bytes) (s : Pump)
      → s.buffered ≡ none
      → ((s.credits == 0) ≡ false → length s.reads < bound)
      → Holding source total bytes (flatten s.reads) s
      → Keeps bound (spend drops bytes s)
  unfolding spend
  spend-Keeps bound bytes s e room h = elim (Bool-cases (s.credits == 0)) [
    | inl broke ↦ simp broke (kept_back-Inv bytes s h, λ f. inl ((==_iff s.credits 0).0 broke))
    | inr rich ↦ simp rich (elim (Bool-cases (ltb s.credits (length bytes))) [
      | inl long ↦
          let fits : length (take s.credits bytes) ≡ s.credits =
            length-take-le s.credits bytes (ground arith) in
          simp long (
            deliver-Inv (take s.credits bytes) part (omega (arith, fits))
                (part-Holding bytes (flatten s.reads) s h),
            deliver-granted (take s.credits bytes) part ∙ h.granted,
            omega (arith, room rich, deliver-left (take s.credits bytes) part (inl fits)),
          )
      | inr short ↦ simp short (
        deliver-Inv bytes s (ground arith) (whole-Holding bytes s e h),
        deliver-granted bytes s ∙ h.granted,
        omega (arith, room rich, deliver-left bytes s (inr e)),
      )
    ])
  ]
    where
      part : Pump
      part = record s { buffered = some (drop s.credits bytes) }

  nothing_waiting : (s : Pump) → s.buffered ≡ none → s.reads ≡ [] → waiting s ≡ []
  nothing_waiting s b r = ap (λ o. held o ++ flatten s.reads) b ∙ ap flatten r

  read_kept :
      (s : Pump) {x : Bytes} {xs : List Bytes}
      → s.buffered ≡ none
      → s.reads ≡ x ∷ xs
      → bytes_sent s.sent ++ waiting s ≡ source
      → bytes_sent s.sent ++ x ++ flatten xs ≡ source
  read_kept s {x} {xs} b r k =
      append_assoc (bytes_sent s.sent) x (flatten xs)
      ∙ sym (
          ap (λ o. bytes_sent s.sent ++ (held o ++ flatten s.reads)) b
          ∙ ap (λ l. bytes_sent s.sent ++ flatten l) r)
      ∙ k

  finish-IsIdle : (s : Pump) → IsIdle (finish s)
  unfolding finish
  finish-IsIdle s = ground arith

  read_source-Keeps :
      (reads : List Bytes) (s : Pump)
      → s.reads ≡ reads
      → s.buffered ≡ none
      → s.finished ≡ false
      → s.granted ≡ true
      → Inv source total s
      → Keeps (length reads) (read_source drops reads s)
  unfolding read_source
  read_source-Keeps [] s r b f g v =
      if_intro (λ t. Keeps 0 (stop t)) s.source_ended (finish s) s
        (λ e. (finish-Inv source total s g v, λ unfinished. finish-IsIdle s unfinished))
        (λ e. (v, λ unfinished. inr (nothing_waiting s b r)))
  read_source-Keeps (x ∷ xs) s r b f g v =
      spend-Keeps (suc (length xs)) x (record s { reads = xs }) b (λ _. omega arith)
        (record {
          kept = read_kept s b r (v.kept f);
          spent = v.spent;
          granted = g;
          chunks = v.chunks f;
        })

  Keeps-mono : (a b : ℕ) (t : Turn) → a ≤ b → Keeps a t → Keeps b t
  Keeps-mono a b (stop t) h k = k
  Keeps-mono a b (go t) h k = (k.0, k.1, omega arith)

  pub turn-Keeps :
      (o : Option Bytes) (s : Pump)
      → s.buffered ≡ o
      → s.finished ≡ false
      → s.granted ≡ true
      → Inv source total s
      → Keeps (left_to_do s) (turn_from drops o s)
  unfolding turn_from
  turn-Keeps (some bytes) s b f g v =
      spend-Keeps (left_to_do s) bytes (record s { buffered = none }) refl (λ rich. ground arith)
        (record {
          kept =
              append_assoc (bytes_sent s.sent) bytes (flatten s.reads)
              ∙ sym (ap (λ o. bytes_sent s.sent ++ (held o ++ flatten s.reads)) b)
              ∙ v.kept f;
          spent = v.spent;
          granted = g;
          chunks = v.chunks f;
        })
  turn-Keeps none s b f g v =
      if_intro (Keeps (left_to_do s)) (s.credits == 0)
        (stop (if s.source_ended && is_nil s.reads then finish s else s))
        (read_source drops s.reads s)
        (λ broke.
          if_intro (λ t. Keeps (left_to_do s) (stop t)) (s.source_ended && is_nil s.reads)
            (finish s) s (λ e. (finish-Inv source total s g v, finish-IsIdle s))
            (λ e. (v, λ unfinished. inl ((==_iff s.credits 0).0 broke))))
        (λ rich.
          Keeps-mono (length s.reads) (left_to_do s) (read_source drops s.reads s) (omega arith)
            (read_source-Keeps s.reads s refl b f g v))

  -- The loop returned, in a state that keeps the invariant and is idle.
  abbrev pub Ends : Option Pump → Type 0
  Ends r = (t : Pump) × (r ≡ some t) × Inv source total t × IsIdle t

  advance-Ends :
      (rest : Pump → Option Pump) (bound : ℕ) (t : Turn)
      → Keeps bound t
      → ((u : Pump) → left_to_do u < bound → u.granted ≡ true → Inv source total u → Ends (rest u))
      → Ends (advance rest t)
  unfolding advance
  advance-Ends rest bound (stop t) k ih = (t, refl, k.0, k.1)
  advance-Ends rest bound (go t) k ih = ih t k.2 k.1 k.0

  -- With enough fuel the loop returns.
  pub loop-Ends :
      (fuel : ℕ) (s : Pump)
      → left_to_do s < fuel
      → s.granted ≡ true
      → Inv source total s
      → Ends (pump_loop drops fuel s)
  unfolding pump_loop
  loop-Ends zero s m g v = elim m [ ]
  loop-Ends (suc fuel) s m g v =
      if_intro Ends s.finished (some s)
        (advance (pump_loop drops fuel) (turn_from drops s.buffered s))
        (λ e. (s, refl, v, λ open'. cc (e, open')))
        (λ e.
          advance-Ends (pump_loop drops fuel) (left_to_do s) (turn_from drops s.buffered s)
            (turn-Keeps s.buffered s refl e g v)
            (λ u m' g' v'. loop-Ends fuel u (omega arith) g' v'))

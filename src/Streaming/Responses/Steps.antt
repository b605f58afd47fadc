-- ===== src/Streaming/Responses/Steps.antt =====
-- What holds of a streaming response at all times.
use neemata.Common.{
  ℕ, ◌+◌, ◌-◌, ◌*◌, ◌≤◌, ◌<◌, ◌≡◌, refl, sym, subst, Bool, true, false, not, ◌&&◌, some, List, [],
  ◌∷◌, ltb, leb, ◌==◌, if◌then◌else◌, arith, if_intro,
}
use neemata.Workflows.Items.{min, max}
use neemata.Streaming.Pump.{max_stream_credits, drop_reason}
use neemata.Streaming.Responses.{
  Failure, aborted, flow_error, Frame, stream_response, chunk, stream_end, stream_abort, Sent,
  Phase, waiting, producing, over, Response, loop_head, checked_head, emit, send, send_last,
  catch_failure, reason_of, idle_delay, max_timer_delay,
}

abbrev pub chunks : List Sent → ℕ
chunks [] = 0
chunks (x ∷ xs) = one x.frame + chunks xs
  where
    one : Frame → ℕ
    one (chunk v) = 1
    one other = 0

abbrev is_last : Frame → Bool
is_last stream_end = true
is_last (stream_abort reason) = true
is_last other = false

abbrev is_chunk : Frame → Bool
is_chunk (chunk v) = true
is_chunk other = false

abbrev is_first : Frame → Bool
is_first stream_response = true
is_first other = false

-- Newest first: the response, and then chunks that were not dropped.
abbrev pub is_open : List Sent → Bool
is_open [] = false
is_open (x ∷ []) = is_first x.frame && not x.dropped
is_open (x ∷ y ∷ ys) = is_chunk x.frame && not x.dropped && is_open (y ∷ ys)

-- The same, but the last chunk may have been dropped.
abbrev pub is_tail : List Sent → Bool
is_tail [] = false
is_tail (x ∷ []) = is_first x.frame && not x.dropped
is_tail (x ∷ y ∷ ys) = is_chunk x.frame && is_open (y ∷ ys)

-- A response that was dropped, or a whole stream with its one last frame.
abbrev pub is_closed : List Sent → Bool
is_closed [] = false
is_closed (x ∷ []) = is_first x.frame && x.dropped
is_closed (x ∷ y ∷ ys) = is_last x.frame && is_tail (y ∷ ys)

abbrev pub is_shaped : Phase → List Sent → Bool
is_shaped over sent = is_closed sent
is_shaped other sent = is_open sent

-- The code waits for credit only without any, under a timer that the platform can hold, and waits for
-- the handler only with credit.
abbrev pub is_due : Phase → ℕ → Bool
is_due (waiting false delay) credits = credits == 0 && leb delay max_timer_delay
is_due (waiting true delay) credits = leb delay max_timer_delay
is_due producing credits = ltb 0 credits
is_due other credits = true

-- The newest frame is one without which the client would wait forever, and was dropped.
abbrev pub is_stranded : List Sent → Bool
is_stranded [] = false
is_stranded (x ∷ xs) = not (is_chunk x.frame) && x.dropped

-- `n` is what the client has pulled in all.
pub record Inv (n : ℕ) (s : Response) : Type 0 where
  pub paid : chunks s.sent + s.credits ≤ n
  pub bounded : s.credits ≤ max_stream_credits
  pub shaped : is_shaped s.phase s.sent ≡ true
  pub due : is_due s.phase s.credits ≡ true
  pub told : is_stranded s.sent ≡ true → s.terminated ≡ true

pub open-tail : (xs : List Sent) → is_open xs ≡ true → is_tail xs ≡ true
open-tail [] h = absurd (ground (arith, h))
open-tail (x ∷ []) h = h
open-tail (x ∷ y ∷ ys) h = ground (arith, h)

open_chunk :
    (v : ℕ) (xs : List Sent)
    → is_open xs ≡ true
    → is_open (record { frame = chunk v; dropped = false } ∷ xs) ≡ true
open_chunk v [] h = absurd (ground (arith, h))
open_chunk v (x ∷ xs) h = h

tail_chunk :
    (v : ℕ) (d : Bool) (xs : List Sent)
    → is_open xs ≡ true
    → is_tail (record { frame = chunk v; dropped = d } ∷ xs) ≡ true
tail_chunk v d [] h = absurd (ground (arith, h))
tail_chunk v d (x ∷ xs) h = h

closed_last :
    (f : Frame) (d : Bool) (xs : List Sent)
    → is_last f ≡ true
    → is_tail xs ≡ true
    → is_closed (record { frame = f; dropped = d } ∷ xs) ≡ true
closed_last f d [] l h = absurd (ground (arith, h))
closed_last f d (x ∷ xs) l h = ground (arith, l, h)

last_free :
    (f : Frame) (d : Bool) (xs : List Sent)
    → is_last f ≡ true
    → chunks (record { frame = f; dropped = d } ∷ xs) ≡ chunks xs
last_free stream_response d xs h = absurd (ground (arith, h))
last_free (chunk v) d xs h = absurd (ground (arith, h))
last_free stream_end d xs h = omega arith
last_free (stream_abort r) d xs h = omega arith

pub send_last-Inv :
    (n : ℕ) (f : Frame) (d : Bool) (s : Response)
    → is_last f ≡ true
    → chunks s.sent + s.credits ≤ n
    → s.credits ≤ max_stream_credits
    → is_tail s.sent ≡ true
    → Inv n (send_last f d s)
send_last-Inv n f d s l paid bounded tail = record {
  paid = omega (arith, last_free f d s.sent l);
  bounded = bounded;
  shaped = closed_last f d s.sent l tail;
  due = refl;
  told = λ h. ground (arith, h);
}

pub catch-Inv :
    (n : ℕ) (f : Failure) (d : Bool) (s : Response)
    → Inv n s
    → is_open s.sent ≡ true
    → Inv n (catch_failure f d s)
catch-Inv n f d s v o =
    send_last-Inv n (stream_abort (reason_of f)) d s refl v.paid v.bounded (open-tail s.sent o)

min-le : (a b : ℕ) → min a b ≤ b
min-le a b = ground arith

loop_head-Inv :
    (t n : ℕ) (s : Response)
    → chunks s.sent + s.credits ≤ n
    → s.credits ≤ max_stream_credits
    → is_open s.sent ≡ true
    → (is_stranded s.sent ≡ true → s.terminated ≡ true)
    → Inv n (loop_head t s)
unfolding loop_head
loop_head-Inv t n s paid bounded o told =
    if_intro (Inv n) (s.credits == 0)
      (record s { idle_credits = 0; phase = waiting false (idle_delay t s) })
      (record s { phase = producing })
      (λ e. record {
        paid = paid;
        bounded = bounded;
        shaped = o;
        due = ground (arith, e, min-le (t * max s.idle_credits 1) max_timer_delay);
        told = told;
      })
      (λ ne. record {
        paid = paid;
        bounded = bounded;
        shaped = o;
        due = ground (arith, ne);
        told = told;
      })

pub checked_head-Inv :
    (t n : ℕ) (d : Bool) (s : Response)
    → Inv n s
    → is_open s.sent ≡ true
    → Inv n (checked_head t d s)
unfolding checked_head
checked_head-Inv t n d s v o =
    if_intro (Inv n) s.is_aborted (catch_failure aborted d s) (loop_head t s)
      (λ _. catch-Inv n aborted d s v o) (λ _. loop_head-Inv t n s v.paid v.bounded o v.told)

pub emit-Inv :
    (t n w : ℕ) (d l : Bool) (s : Response)
    → Inv n s
    → is_open s.sent ≡ true
    → 0 < s.credits
    → Inv n (emit t w d l s)
unfolding emit
emit-Inv t n w d l s v o credit =
    let s' : Response = send (chunk w) d (record s { credits = s.credits - 1 }) in
    let paid : chunks s'.sent + s'.credits ≤ n = omega (arith, v.paid) in
    let bounded : s'.credits ≤ max_stream_credits = omega (arith, v.bounded) in
    if_intro (Inv n) s.is_aborted (catch_failure aborted l s)
      (if d then catch_failure (flow_error drop_reason) l s' else loop_head t s')
      (λ _. catch-Inv n aborted l s v o)
      (λ _.
        if_intro (Inv n) d (catch_failure (flow_error drop_reason) l s') (loop_head t s')
          (λ _.
            send_last-Inv n (stream_abort (some drop_reason)) l s' refl paid bounded
              (tail_chunk w d s.sent o))
          (λ kept.
            loop_head-Inv t n s' paid bounded
              (subst (λ x. is_open (record { frame = chunk w; dropped = x } ∷ s.sent) ≡ true)
                (sym kept) (open_chunk w s.sent o))
              (λ h. absurd (ground (arith, h)))))

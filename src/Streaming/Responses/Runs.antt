-- ===== src/Streaming/Responses/Runs.antt =====
-- Streaming responses under any events.
use neemata.Common.{
  if◌then◌else◌, ℕ, ◌+◌, ◌≤◌, ◌<◌, ◌≡◌, refl, Bool, true, false, ◌||◌, Option, none, some, ltb,
  ◌==◌, arith, if_intro,
}
use neemata.Streaming.Pump.{max_stream_credits}
use neemata.Streaming.Downloads.{violation_reason}
use neemata.Streaming.Uploads.{idle_timeout_reason}
use neemata.Streaming.Responses.{
  Failure, thrown, aborted, flow_error, Phase, starting, waiting, producing, over, Response, Event,
  pulled, aborts, closes, enters, expires, granted, flow_fails, produced, finished, throws, respond,
  pull, abort, close_session, happen, reject, credited, notified, failing, waited, stream_end,
  at_starting, at_waiting, at_producing,
}
use neemata.Streaming.Responses.Steps.{
  Inv, is_shaped, is_due, is_open, open-tail, send_last-Inv, catch-Inv, checked_head-Inv, emit-Inv,
}

reject-Inv : (n : ℕ) (f : Failure) (s : Response) → Inv n s → Inv n (reject f s)
reject-Inv n f s v = record {
  paid = v.paid;
  bounded = v.bounded;
  shaped = v.shaped;
  due = v.due;
  told = v.told;
}

abort-Inv : (n : ℕ) (s : Response) → Inv n s → Inv n (abort s)
abort-Inv n s v = record {
  paid = v.paid;
  bounded = v.bounded;
  shaped = v.shaped;
  due = v.due;
  told = v.told;
}

more-Inv : (n m : ℕ) (s : Response) → n ≤ m → Inv n s → Inv m s
more-Inv n m s le v = record {
  paid = omega (arith, v.paid);
  bounded = v.bounded;
  shaped = v.shaped;
  due = v.due;
  told = v.told;
}

notified-shaped :
    (p : Phase) (s : Response) → is_shaped p s.sent ≡ true → is_shaped (notified p) s.sent ≡ true
notified-shaped starting s h = h
notified-shaped (waiting g d) s h = h
notified-shaped producing s h = h
notified-shaped over s h = h

notified-due :
    (p : Phase) (credits size : ℕ)
    → is_due p credits ≡ true
    → is_due (notified p) (credits + size) ≡ true
notified-due starting credits size h = refl
notified-due (waiting true d) credits size h = h
notified-due (waiting false d) credits size h = ground (arith, h)
notified-due producing credits size h = ground (arith, h)
notified-due over credits size h = refl

credited-Inv :
    (n size : ℕ) (s : Response)
    → s.credits + size ≤ max_stream_credits
    → Inv n s
    → Inv (n + size) (credited size s)
credited-Inv n size s le v = record {
  paid = omega (arith, v.paid);
  bounded = le;
  shaped = notified-shaped s.phase s v.shaped;
  due = notified-due s.phase s.credits size v.due;
  told = v.told;
}

pull-Inv : (n size : ℕ) (s : Response) → Inv n s → Inv (n + size) (pull size s)
unfolding pull
pull-Inv n size s v =
    if_intro (Inv (n + size)) s.installed _ s
      (λ _.
        if_intro (Inv (n + size)) (size == 0 || ltb max_stream_credits (s.credits + size))
          (reject (flow_error violation_reason) s) (credited size s)
          (λ _.
            reject-Inv (n + size) (flow_error violation_reason) s
              (more-Inv n (n + size) s (omega arith) v))
          (λ fits. credited-Inv n size s (ground (arith, fits)) v))
      (λ _. more-Inv n (n + size) s (omega arith) v)

close-Inv : (n : ℕ) (s : Response) → Inv n s → Inv n (close_session s)
unfolding close_session
close-Inv n s v = record {
  paid = v.paid;
  bounded = v.bounded;
  shaped = notified-shaped s.phase s v.shaped;
  due = closed s.phase v.due;
  told = v.told;
}
  where
    closed : (p : Phase) → is_due p s.credits ≡ true → is_due (notified p) s.credits ≡ true
    closed starting h = refl
    closed (waiting true d) h = h
    closed (waiting false d) h = ground (arith, h)
    closed producing h = h
    closed over h = refl

failing-Inv :
    (n : ℕ) (o : Option Failure) (l : Bool) (s : Response)
    → Inv n s
    → is_open s.sent ≡ true
    → Inv n (failing o l s)
failing-Inv n none l s v o = v
failing-Inv n (some f) l s v o = catch-Inv n f l s v o

at_starting-Inv :
    (t n : ℕ) (e : Event) (s : Response)
    → Inv n s
    → is_open s.sent ≡ true
    → Inv n (at_starting t e s)
unfolding at_starting
at_starting-Inv t n (enters l) s v o = checked_head-Inv t n l s v o
at_starting-Inv t n (throws l) s v o =
    catch-Inv n (if s.is_aborted then aborted else thrown) l s v o
at_starting-Inv t n _ s v o = v

at_waiting-Inv :
    (t n : ℕ) (g : Bool) (e : Event) (s : Response)
    → Inv n s
    → is_open s.sent ≡ true
    → Inv n (at_waiting t g e s)
unfolding at_waiting
at_waiting-Inv t n g expires s v o = reject-Inv n (flow_error idle_timeout_reason) s v
at_waiting-Inv t n true (granted l) s v o = checked_head-Inv t n l s v o
at_waiting-Inv t n g (flow_fails l) s v o = failing-Inv n s.flow l s v o
at_waiting-Inv t n g _ s v o = v

at_producing-Inv :
    (t n : ℕ) (e : Event) (s : Response)
    → Inv n s
    → is_open s.sent ≡ true
    → 0 < s.credits
    → Inv n (at_producing t e s)
unfolding at_producing
at_producing-Inv t n (produced w d l) s v o c = emit-Inv t n w d l s v o c
at_producing-Inv t n (finished d) s v o c =
    send_last-Inv n stream_end d s refl v.paid v.bounded (open-tail s.sent o)
at_producing-Inv t n (throws l) s v o c = catch-Inv n thrown l s v o
at_producing-Inv t n (flow_fails l) s v o c = failing-Inv n s.flow l s v o
at_producing-Inv t n _ s v o c = v

waited-Inv :
    (t n : ℕ) (p : Phase) (e : Event) (s : Response)
    → is_shaped p s.sent ≡ true
    → is_due p s.credits ≡ true
    → Inv n s
    → Inv n (waited t p e s)
unfolding waited at_starting at_waiting at_producing
waited-Inv t n starting e s h d v = at_starting-Inv t n e s v h
waited-Inv t n (waiting g delay) e s h d v = at_waiting-Inv t n g e s v h
waited-Inv t n producing e s h d v = at_producing-Inv t n e s v h (ground (arith, d))
waited-Inv t n over e s h d v = v

abbrev pub size_of : Event → ℕ
size_of (pulled size) = size
size_of other = 0

happen-Inv : (t n : ℕ) (e : Event) (s : Response) → Inv n s → Inv (n + size_of e) (happen t e s)
unfolding happen
happen-Inv t n (pulled size) s v = pull-Inv n size s v
happen-Inv t n aborts s v = more-Inv n (n + 0) (abort s) (omega arith) (abort-Inv n s v)
happen-Inv t n closes s v = more-Inv n (n + 0) (close_session s) (omega arith) (close-Inv n s v)
happen-Inv t n e s v =
    more-Inv n (n + 0) (waited t s.phase e s) (omega arith)
      (waited-Inv t n s.phase e s v.shaped v.due v)

-- What the events lead to, with what they pulled in all.
pub data Reach (idle_timeout : ℕ) : ℕ → Response → Type 0 where
  answered : (dropped : Bool) → Reach idle_timeout 0 (respond dropped)
  next :
      {n : ℕ} {s : Response}
      → Reach idle_timeout n s
      → (e : Event) → Reach idle_timeout (n + size_of e) (happen idle_timeout e s)

respond-Inv : (d : Bool) → Inv 0 (respond d)
unfolding respond
respond-Inv true = record {
  paid = omega arith;
  bounded = omega arith;
  shaped = refl;
  due = refl;
  told = λ _. refl;
}
respond-Inv false = record {
  paid = omega arith;
  bounded = omega arith;
  shaped = refl;
  due = refl;
  told = λ h. absurd (ground (arith, h));
}

-- Whatever the client pulls, the handler does, the timers do and the transport drops, in any order,
-- and whatever the idle timeout: a streaming response
--   sends at most one chunk for each credit that the client pulled, less the credit that is left, and
--   never holds more credit than the protocol allows;
--   sends the response first, then chunks, none behind a dropped one, and once it is over, unless the
--   response was dropped, one end or one abort behind them and nothing more;
--   waits for credit only without any and under a timer that the platform can hold, and asks the
--   handler for a value only with credit;
--   terminates the connection if the response, the end or the abort was dropped.
pub response-Reach-Inv : {t n : ℕ} {s : Response} → Reach t n s → Inv n s
response-Reach-Inv (answered d) = respond-Inv d
response-Reach-Inv (next {n} {s} r e) = happen-Inv _ n e s (response-Reach-Inv r)

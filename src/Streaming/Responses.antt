-- ===== src/Streaming/Responses.antt =====
-- packages/transports/src/neemata/ws/session.ts: the streaming response of a call, `handleRpc` from
-- where the handler has returned a stream, with `RpcStreamPull` and what closes the session. The code
-- is cut where it waits: a wake-up is an event of its own, so that pulls and aborts may come before
-- it. A value is a number, and the reason of an error a text.
pub mod Steps
pub mod Runs
mod Tests
use neemata.Common.{
  ℕ, suc, ◌+◌, ◌-◌, ◌*◌, ◌^◌, Bool, true, false, ◌||◌, Option, none, some, List, [], ◌∷◌, ltb, ◌==◌,
  if◌then◌else◌,
}
use neemata.Wire.Utf8.{Text}
use neemata.Workflows.Items.{min, max}
use neemata.Streaming.Pump.{max_stream_credits, drop_reason}
use neemata.Streaming.Downloads.{violation_reason}
use neemata.Streaming.Uploads.{idle_timeout_reason}

abbrev pub max_timer_delay : ℕ
max_timer_delay = 2 ^ 31 - 1

-- Why the stream fails: the call was aborted, the handler threw, or a `StreamFlowError`.
pub data Failure : Type 0 where
  aborted : Failure
  thrown : Failure
  flow_error : (message : Text) → Failure

-- What is sent for the call.
pub data Frame : Type 0 where
  stream_response : Frame
  chunk : (v : ℕ) → Frame
  stream_end : Frame
  stream_abort : Option Text → Frame

-- A frame that is handed to the transport, and whether that drops it.
pub record Sent : Type 0 where
  pub frame : Frame
  pub dropped : Bool

-- Where the code waits: in the send of the response, for credit with an idle timer, for the handler's
-- next value, or not any more.
pub data Phase : Type 0 where
  starting : Phase
  waiting : (granted : Bool) → (delay : ℕ) → Phase
  producing : Phase
  over : Phase

-- `RpcStreamCreditState` with the rest of the state: whether its entry stands, whether the signal is
-- aborted, what `flow` was rejected with, what was sent, newest first, and whether the connection was
-- terminated.
pub record Response : Type 0 where
  pub credits : ℕ
  pub idle_credits : ℕ
  pub installed : Bool
  pub is_aborted : Bool
  pub flow : Option Failure
  pub phase : Phase
  pub sent : List Sent
  pub terminated : Bool

abbrev pub reason_of : Failure → Option Text
reason_of (flow_error message) = some message
reason_of other = none

abbrev pub send : Frame → Bool → Response → Response
send frame dropped s = record s { sent = record { frame = frame; dropped = dropped } ∷ s.sent }

-- A frame without which the client would wait forever.
abbrev pub send_last : Frame → Bool → Response → Response
send_last frame dropped s = record (send frame dropped s) {
  terminated = s.terminated || dropped;
  phase = over;
  installed = false;
}

-- The `catch` of the loop.
abbrev pub catch_failure : Failure → Bool → Response → Response
catch_failure failure dropped s = send_last (stream_abort (reason_of failure)) dropped s

abbrev pub first_failure : Option Failure → Failure → Option Failure
first_failure none f = some f
first_failure (some g) f = some g

abbrev pub reject : Failure → Response → Response
reject f s = record s { flow = first_failure s.flow f }

-- The state before the loop; a response that is dropped ends it at once.
unfoldable pub respond : Bool → Response
respond dropped = record {
  credits = 0;
  idle_credits = 0;
  installed = if dropped then false else true;
  is_aborted = false;
  flow = none;
  phase = if dropped then over else starting;
  sent = record { frame = stream_response; dropped = dropped } ∷ [];
  terminated = dropped;
}

abbrev pub notified : Phase → Phase
notified (waiting granted delay) = waiting true delay
notified other = other

abbrev pub credited : ℕ → Response → Response
credited size s = record s {
  credits = s.credits + size;
  idle_credits = min (s.idle_credits + size) max_stream_credits;
  phase = notified s.phase;
}

-- `RpcStreamPull`.
unfoldable pub pull : ℕ → Response → Response
pull size s =
    if s.installed
    then (if size == 0 || ltb max_stream_credits (s.credits + size)
        then reject (flow_error violation_reason) s
        else credited size s)
    else s

-- The abort of the call's signal.
abbrev pub abort : Response → Response
abort s = record (reject aborted s) { is_aborted = true }

-- `close`: the call is aborted, the entry goes, and a wait for credit is woken.
unfoldable pub close_session : Response → Response
close_session s = record (abort s) { installed = false; phase = notified s.phase }

-- The delay of the idle timer.
abbrev pub idle_delay : ℕ → Response → ℕ
idle_delay idle_timeout s = min (idle_timeout * max s.idle_credits 1) max_timer_delay

-- The head of the loop: the wait for credit, or the call of `next`.
unfoldable pub loop_head : ℕ → Response → Response
loop_head idle_timeout s =
    if s.credits == 0
    then record s { idle_credits = 0; phase = waiting false (idle_delay idle_timeout s) }
    else record s { phase = producing }

-- `signal.throwIfAborted()` before the head of the loop.
unfoldable pub checked_head : ℕ → Bool → Response → Response
unfolding loop_head
checked_head idle_timeout dropped s =
    if s.is_aborted then catch_failure aborted dropped s else loop_head idle_timeout s

-- A value of the handler becomes a chunk.
unfoldable pub emit : ℕ → ℕ → Bool → Bool → Response → Response
unfolding loop_head
emit idle_timeout v dropped lost s =
    let sent = send (chunk v) dropped (record s { credits = s.credits - 1 }) in
    if s.is_aborted
    then catch_failure aborted lost s
    else (if dropped
        then catch_failure (flow_error drop_reason) lost sent
        else loop_head idle_timeout sent)

-- `drops` is whether the transport drops the frame that the event sends, and `loses` an abort frame.
pub data Event : Type 0 where
  pulled : (size : ℕ) → Event
  aborts : Event
  closes : Event
  enters : (loses : Bool) → Event
  expires : Event
  granted : (loses : Bool) → Event
  flow_fails : (loses : Bool) → Event
  produced : (v : ℕ) → (drops loses : Bool) → Event
  finished : (drops : Bool) → Event
  throws : (loses : Bool) → Event

abbrev pub failing : Option Failure → Bool → Response → Response
failing none loses s = s
failing (some f) loses s = catch_failure f loses s

-- An event acts in the phase in which the code waits for it.
abbrev pub at_starting : ℕ → Event → Response → Response
unfolding checked_head
at_starting idle_timeout (enters loses) s = checked_head idle_timeout loses s
-- The iterator of the handler's stream may throw when it is asked for.
at_starting idle_timeout (throws loses) s =
    catch_failure (if s.is_aborted then aborted else thrown) loses s
at_starting idle_timeout other s = s

abbrev pub at_waiting : ℕ → Bool → Event → Response → Response
unfolding checked_head
at_waiting idle_timeout g expires s = reject (flow_error idle_timeout_reason) s
at_waiting idle_timeout true (granted loses) s = checked_head idle_timeout loses s
at_waiting idle_timeout g (flow_fails loses) s = failing s.flow loses s
at_waiting idle_timeout g other s = s

abbrev pub at_producing : ℕ → Event → Response → Response
unfolding emit
at_producing idle_timeout (produced v drops loses) s = emit idle_timeout v drops loses s
at_producing idle_timeout (finished drops) s = send_last stream_end drops s
at_producing idle_timeout (throws loses) s = catch_failure thrown loses s
at_producing idle_timeout (flow_fails loses) s = failing s.flow loses s
at_producing idle_timeout other s = s

abbrev pub waited : ℕ → Phase → Event → Response → Response
unfolding at_starting at_waiting at_producing
waited idle_timeout starting e s = at_starting idle_timeout e s
waited idle_timeout (waiting g delay) e s = at_waiting idle_timeout g e s
waited idle_timeout producing e s = at_producing idle_timeout e s
waited idle_timeout over e s = s

unfoldable pub happen : ℕ → Event → Response → Response
unfolding pull close_session waited
happen idle_timeout (pulled size) s = pull size s
happen idle_timeout aborts s = abort s
happen idle_timeout closes s = close_session s
happen idle_timeout e s = waited idle_timeout s.phase e s

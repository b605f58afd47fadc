-- ===== src/Streaming/Pump.antt =====
-- packages/protocol/src/server/stream.ts: `ProtocolServerStream`, the pump that sends a download
-- against the byte credits that the peer grants.
pub mod Frames
pub mod Turns
pub mod Extends
pub mod Steps
pub mod Runs
mod Tests
use neemata.Common.{
  ℕ, zero, suc, ◌+◌, ◌-◌, codes, Bool, true, false, not, ◌&&◌, ◌||◌, Option, none, some, List, [],
  ◌∷◌, ◌++◌, ltb, ◌==◌, if◌then◌else◌, length, take, drop,
}
use neemata.Wire.Bytes.{Bytes}
use neemata.Wire.Utf8.{Text}

-- What the sink is given.
pub data Frame : Type 0 where
  chunk : Bytes → Frame
  end : Frame
  error : Text → Frame

-- `reads` is what the source's `read()` returns from now on before it returns null, and `sent` what
-- the sink has been given, oldest first.
pub record Pump : Type 0 where
  pub reads : List Bytes
  pub source_ended : Bool
  pub credits : ℕ
  pub granted : Bool
  pub buffered : Option Bytes
  pub pending_error : Option Text
  pub finished : Bool
  pub pumping : Bool
  pub sent : List Frame

abbrev pub max_stream_credits : ℕ
max_stream_credits = 4294967295

-- `STREAM_TRANSPORT_DROP_REASON` of streams.ts.
abbrev pub drop_reason : Text
drop_reason = codes "transport backpressure overflow (frame dropped)"

abbrev pub create : Pump
create = record {
  reads = [];
  source_ended = false;
  credits = 0;
  granted = false;
  buffered = none;
  pending_error = none;
  finished = false;
  pumping = false;
  sent = [];
}

unfoldable pub fail : Text → Pump → Pump
fail reason s = if s.finished then s else record s {
  finished = true;
  buffered = none;
  pending_error = none;
  sent = s.sent ++ error reason ∷ [];
}

unfoldable pub finish : Pump → Pump
finish s = if s.finished then s else record s { finished = true; sent = s.sent ++ end ∷ [] }

abbrev pub is_nil : List Bytes → Bool
is_nil [] = true
is_nil (r ∷ rs) = false

-- One round of the loop of `#pump`: it returns, or goes on.
pub data Turn : Type 0 where
  stop go : Pump → Turn

-- A round that goes on is followed by the rest of the loop.
pub advance : (Pump → Option Pump) → Turn → Option Pump
advance rest (stop t) = some t
advance rest (go t) = rest t

abbrev pub pump_fuel : Pump → ℕ
pump_fuel s = length s.reads + 2

abbrev pub settled : Pump → Option Pump → Pump
settled s none = s
settled s (some t) = record t { pumping = false }

-- The source's events, and the owner's calls. `readable` brings what one more `read` returns.
pub data Event : Type 0 where
  readable : Bytes → Event
  source_end : Event
  source_error : Text → Event
  grants : ℕ → Event
  destroys : Option Text → Event

-- The transport's answer to a chunk, from what it was given before. At a dropped frame the owner's
-- sink (`createServerStream` in streams.ts) destroys the stream.
module _ (drops : List Frame → Bytes → Bool) where
  pub deliver : Bytes → Pump → Pump
  unfolding fail
  deliver bytes s =
      let t : Pump = record s {
        credits = s.credits - length bytes;
        sent = s.sent ++ chunk bytes ∷ [];
      } in
      if drops s.sent bytes then fail drop_reason t else t

  pub spend : Bytes → Pump → Turn
  unfolding deliver
  spend bytes s =
      if s.credits == 0
      then stop (record s { buffered = some bytes })
      else if ltb s.credits (length bytes)
      then go (deliver (take s.credits bytes) (record s { buffered = some (drop s.credits bytes) }))
      else go (deliver bytes s)

  pub read_source : List Bytes → Pump → Turn
  unfolding spend finish
  read_source [] s = stop (if s.source_ended then finish s else s)
  read_source (r ∷ rs) s = spend r (record s { reads = rs })

  pub turn_from : Option Bytes → Pump → Turn
  unfolding read_source
  turn_from (some bytes) s = spend bytes (record s { buffered = none })
  turn_from none s =
      if s.credits == 0
      then stop (if s.source_ended && is_nil s.reads then finish s else s)
      else read_source s.reads s

  -- `none`: the fuel ran out.
  pub pump_loop : ℕ → Pump → Option Pump
  pump_loop zero s = none
  pump_loop (suc fuel) s =
      if s.finished then some s else advance (pump_loop fuel) (turn_from s.buffered s)

  pub pump : Pump → Pump
  pump s =
      if s.pumping || s.finished || not s.granted
      then s
      else settled s (pump_loop (pump_fuel s) (record s { pumping = true }))

  grant_open : Option Text → ℕ → Pump → Pump
  unfolding fail
  grant_open (some reason) size s = fail reason (record s { granted = true })
  grant_open none size s = pump (record s { granted = true; credits = s.credits + size })

  -- `grant`: false for a grant above the cap.
  pub grant : ℕ → Pump → Pump × Bool
  unfolding grant_open
  grant size s =
      if s.finished || size == 0
      then (s, true)
      else if ltb max_stream_credits (s.credits + size)
      then (s, false)
      else (grant_open s.pending_error size s, true)

  pub destroy : Option Text → Pump → Pump
  unfolding fail
  destroy (some reason) s = fail reason s
  destroy none s = record s { finished = true; buffered = none }

  pub step : Pump → Event → Pump
  unfolding grant destroy
  step s (readable bytes) = pump (record s { reads = s.reads ++ bytes ∷ [] })
  step s source_end = pump (record s { source_ended = true })
  step s (source_error reason) =
      if not s.granted && not s.finished
      then record s { pending_error = some reason }
      else fail reason s
  step s (grants size) = (grant size s).0
  step s (destroys reason) = destroy reason s

  pub run : Pump → List Event → Pump
  run s [] = s
  run s (e ∷ es) = run (step s e) es

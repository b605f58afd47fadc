-- ===== src/Streaming/Downloads.antt =====
-- packages/transports/src/neemata/ws/streams.ts: the server streams (downloads) of
-- `BlobStreamsManager`, each with its pump. A pump's frames are handed to the sink that
-- `createServerStream` wraps around the connection's, in their order, once the pump's own code is
-- through; the wrapper's answer to a dropped frame is the pump's (`deliver`).
pub mod Kept
pub mod Steps
pub mod Silent
mod Tests
use neemata.Common.{
  ℕ, ◌+◌, Bool, true, false, not, ◌&&◌, ◌||◌, Option, none, some, List, [], ◌∷◌, codes,
  if◌then◌else◌, length, drop,
}
use neemata.Wire.Bytes.{Bytes}
use neemata.Wire.Utf8.{Text}
use neemata.Streaming.Pump.{
  Frame, chunk, end, error, Pump, create, destroy, grant, step, Event, readable, source_end,
  source_error,
}
use neemata.Streaming.Index.{Key, put, Index, ids, track, untrack}
use neemata.Streaming.Uploads.{of_connection, idle_timeout_reason, closed_reason}

-- `ServerStreamState`, but for the connection and the stream's id, which are its key.
pub record ServerState : Type 0 where
  pub call_id : ℕ
  pub stream : Pump
  pub timer : Bool
  pub suppress_notify : Bool

-- What goes to the peer, and which streams were made.
pub data Sent : Type 0 where
  opened : Key → Sent
  sent_chunk : Key → Bytes → Sent
  sent_end : Key → Sent
  sent_abort : Key → Text → Sent

pub record Downloads : Type 0 where
  pub streams : Key → Option ServerState
  pub calls : Index
  pub connections : Index
  pub log : List Sent

abbrev pub no_downloads : Downloads
no_downloads = record { streams = λ k. none; calls = λ k. none; connections = λ k. none; log = [] }

abbrev pub violation_reason : Text
violation_reason = codes "stream credit violation"

abbrev pub touched : ServerState → ServerState
touched st = record st { timer = true }

pub create_server_stream : ℕ → ℕ → ℕ → Downloads → Downloads
create_server_stream connection call_id stream_id m = record {
  streams =
      put (connection, stream_id)
        (some
          (record { call_id = call_id; stream = create; timer = true; suppress_notify = false }))
        m.streams;
  calls = track (connection, call_id) stream_id m.calls;
  connections = track (of_connection connection) stream_id m.connections;
  log = opened (connection, stream_id) ∷ m.log;
}

pub removing : ℕ → ℕ → Option ServerState → Downloads → Downloads
removing connection stream_id none m = m
removing connection stream_id (some st) m = record m {
  streams = put (connection, stream_id) none m.streams;
  calls = untrack (connection, st.call_id) stream_id m.calls;
  connections = untrack (of_connection connection) stream_id m.connections;
}

pub remove_server_stream : ℕ → ℕ → Downloads → Downloads
unfolding removing
remove_server_stream connection stream_id m =
    removing connection stream_id (m.streams (connection, stream_id)) m

pub touching : Key → Option ServerState → Downloads → Downloads
touching k none m = m
touching k (some st) m = record m { streams = put k (some (touched st)) m.streams }

abbrev pub suppressed : Option ServerState → Bool
suppressed none = false
suppressed (some st) = st.suppress_notify

abbrev pub logged : Bool → Sent → Downloads → Downloads
logged silent s m = if silent then m else record m { log = s ∷ m.log }

-- The callbacks of the sink.
pub on_frame : ℕ → ℕ → Frame → Downloads → Downloads
unfolding touching remove_server_stream
on_frame c i (chunk bytes) m =
    logged false (sent_chunk (c, i) bytes) (touching (c, i) (m.streams (c, i)) m)
on_frame c i end m = logged false (sent_end (c, i)) (remove_server_stream c i m)
on_frame c i (error reason) m =
    logged (suppressed (m.streams (c, i))) (sent_abort (c, i) reason) (remove_server_stream c i m)

pub on_frames : ℕ → ℕ → List Frame → Downloads → Downloads
unfolding on_frame
on_frames c i [] m = m
on_frames c i (f ∷ fs) m = on_frames c i fs (on_frame c i f m)

-- The stream's pump has run from `before` to `after`.
pub updating : ℕ → ℕ → ServerState → Pump → Downloads → Downloads
unfolding on_frames
updating c i st after m =
    on_frames c i (drop (length st.stream.sent) after.sent)
      (record m { streams = put (c, i) (some (record st { stream = after })) m.streams })

module _ (drops : List Frame → Bytes → Bool) where
  pub aborting : ℕ → ℕ → Text → Bool → Option ServerState → Downloads → Downloads
  unfolding updating remove_server_stream
  aborting c i reason notify_peer none m = m
  aborting c i reason notify_peer (some st) m = remove_server_stream c i (
      updating c i (record st { suppress_notify = not notify_peer || st.suppress_notify })
        (destroy drops (some reason) st.stream) m)

  pub abort_server_stream : ℕ → ℕ → Text → Bool → Downloads → Downloads
  unfolding aborting
  abort_server_stream c i reason notify_peer m =
      aborting c i reason notify_peer (m.streams (c, i)) m

  pub pulling : ℕ → ℕ → ℕ → Option ServerState → Downloads → Downloads
  unfolding updating abort_server_stream
  pulling c i size none m = m
  pulling c i size (some st) m =
      let r = grant drops size st.stream in
      let t : Downloads = updating c i (touched st) r.0 m in
      if r.1 then t else abort_server_stream c i violation_reason true t

  pub pull_server_stream : ℕ → ℕ → ℕ → Downloads → Downloads
  unfolding pulling
  pull_server_stream c i size m = pulling c i size (m.streams (c, i)) m

  -- An event of the stream's source.
  pub emitting : ℕ → ℕ → Event → Option ServerState → Downloads → Downloads
  unfolding updating
  emitting c i e none m = m
  emitting c i e (some st) m = updating c i st (step drops st.stream e) m

  pub expiring : ℕ → ℕ → Option ServerState → Downloads → Downloads
  unfolding abort_server_stream
  expiring c i none m = m
  expiring c i (some st) m =
      if st.timer then abort_server_stream c i idle_timeout_reason true m else m

  pub abort_all : ℕ → List ℕ → Downloads → Downloads
  unfolding abort_server_stream
  abort_all c [] m = m
  abort_all c (i ∷ rest) m = abort_all c rest (abort_server_stream c i closed_reason false m)

  -- The server streams' half of `cleanupConnection`.
  pub cleanup_connection : ℕ → Downloads → Downloads
  unfolding abort_all
  cleanup_connection c m = abort_all c (ids (m.connections (of_connection c))) m

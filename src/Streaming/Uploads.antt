-- ===== src/Streaming/Uploads.antt =====
-- packages/transports/src/neemata/ws/streams.ts: the client streams (uploads) of
-- `BlobStreamsManager`, and packages/transports/src/neemata/ws/session.ts: the `read` of one, which
-- pulls. What is done to a stream or sent to the peer is logged, newest first.
pub mod Invariant
pub mod Steps
pub mod Credit
mod Tests
use neemata.Common.{
  ℕ, ◌+◌, ◌-◌, Bool, true, false, not, ◌&&◌, ◌||◌, Option, none, some, List, [], ◌∷◌, codes, ltb,
  leb, ◌==◌, if◌then◌else◌, length,
}
use neemata.Wire.Bytes.{Bytes}
use neemata.Wire.Utf8.{Text}
use neemata.Streaming.Pump.{drop_reason, max_stream_credits}
use neemata.Streaming.Index.{Key, put, Index, ids, track, untrack}

-- `ClientStreamState`, but for the connection and the stream's id, which are its key. `timer`: the
-- idle timer is armed.
pub record ClientState : Type 0 where
  pub call_id : ℕ
  pub granted : ℕ
  pub timer : Bool
  pub notified : Bool

pub data Effect : Type 0 where
  created : Key → Effect
  pulled : Key → ℕ → Effect
  wrote : Key → Bytes → Effect
  ended : Key → Effect
  destroyed : Key → Text → Effect
  told_peer : Key → Text → Effect

pub record Uploads : Type 0 where
  pub streams : Key → Option ClientState
  pub calls : Index
  pub connections : Index
  pub log : List Effect

abbrev pub no_uploads : Uploads
no_uploads = record { streams = λ k. none; calls = λ k. none; connections = λ k. none; log = [] }

-- The key of a connection in `connectionClientStreams`.
abbrev pub of_connection : ℕ → Key
of_connection connection = (connection, 0)

abbrev pub idle_timeout_reason : Text
idle_timeout_reason = codes "stream idle timeout"

abbrev pub closed_reason : Text
closed_reason = codes "Connection closed"

touch : ClientState → ClientState
touch st = record st { timer = true }

abbrev fresh_state : ℕ → ClientState
fresh_state call_id = record { call_id = call_id; granted = 0; timer = false; notified = false }

pub create_client_stream : ℕ → ℕ → ℕ → Uploads → Uploads
unfolding touch
create_client_stream connection call_id stream_id m = record {
  streams = put (connection, stream_id) (some (touch (fresh_state call_id))) m.streams;
  calls = track (connection, call_id) stream_id m.calls;
  connections = track (of_connection connection) stream_id m.connections;
  log = created (connection, stream_id) ∷ m.log;
}

abbrev at_most : ℕ → ℕ → ℕ
at_most cap n = if leb n cap then n else cap

pub granting : Key → ℕ → Option ClientState → Uploads → Uploads
unfolding touch
granting k size none m = m
granting k size (some st) m = record m {
  streams =
      put k (some (touch (record st { granted = at_most max_stream_credits (st.granted + size) })))
        m.streams;
}

pub grant_client_stream : ℕ → ℕ → ℕ → Uploads → Uploads
unfolding granting
grant_client_stream connection stream_id size m =
    granting (connection, stream_id) size (m.streams (connection, stream_id)) m

pub revoking : Key → ℕ → Option ClientState → Uploads → Uploads
revoking k size none m = m
revoking k size (some st) m = record m {
  streams = put k (some (record st { granted = st.granted - size })) m.streams;
}

pub revoke_client_stream_grant : ℕ → ℕ → ℕ → Uploads → Uploads
unfolding revoking
revoke_client_stream_grant connection stream_id size m =
    revoking (connection, stream_id) size (m.streams (connection, stream_id)) m

-- A push is refused if it is empty or larger than the credit.
pub pushing : Key → Bytes → Option ClientState → Uploads → Uploads × Bool
unfolding touch
pushing k chunk none m = (m, true)
pushing k chunk (some st) m =
    if length chunk == 0 || ltb st.granted (length chunk) then (m, false) else (
      record m {
        streams =
            put k (some (touch (record st { granted = st.granted - length chunk }))) m.streams;
        log = wrote k chunk ∷ m.log;
      },
      true,
    )

pub push_to_client_stream : ℕ → ℕ → Bytes → Uploads → Uploads × Bool
unfolding pushing
push_to_client_stream connection stream_id chunk m =
    pushing (connection, stream_id) chunk (m.streams (connection, stream_id)) m

pub removing : ℕ → ℕ → Option ClientState → Uploads → Uploads
removing connection stream_id none m = m
removing connection stream_id (some st) m = record m {
  streams = put (connection, stream_id) none m.streams;
  calls = untrack (connection, st.call_id) stream_id m.calls;
  connections = untrack (of_connection connection) stream_id m.connections;
}

pub remove_client_stream : ℕ → ℕ → Uploads → Uploads
unfolding removing
remove_client_stream connection stream_id m =
    removing connection stream_id (m.streams (connection, stream_id)) m

pub ending : ℕ → ℕ → Option ClientState → Uploads → Uploads
unfolding remove_client_stream
ending connection stream_id none m = m
ending connection stream_id (some st) m =
    remove_client_stream connection stream_id
      (record m { log = ended (connection, stream_id) ∷ m.log })

pub end_client_stream : ℕ → ℕ → Uploads → Uploads
unfolding ending
end_client_stream connection stream_id m =
    ending connection stream_id (m.streams (connection, stream_id)) m

-- The peer is told at most once, and only if it did not ask for the abort itself.
abbrev telling : Key → Text → Bool → ClientState → List Effect → List Effect
telling k reason notify_peer st log =
    if notify_peer && not st.notified then told_peer k reason ∷ log else log

pub aborting : ℕ → ℕ → Text → Bool → Option ClientState → Uploads → Uploads
unfolding remove_client_stream
aborting connection stream_id reason notify_peer none m = m
aborting connection stream_id reason notify_peer (some st) m =
    let k : Key = (connection, stream_id) in
    remove_client_stream connection stream_id (record m {
      streams = put k (some (record st { notified = st.notified || notify_peer })) m.streams;
      log = destroyed k reason ∷ telling k reason notify_peer st m.log;
    })

pub abort_client_stream : ℕ → ℕ → Text → Bool → Uploads → Uploads
unfolding aborting
abort_client_stream connection stream_id reason notify_peer m =
    aborting connection stream_id reason notify_peer (m.streams (connection, stream_id)) m

pub consume_client_stream : ℕ → ℕ → ℕ → Uploads → Uploads
consume_client_stream connection call_id stream_id m = record m {
  calls = untrack (connection, call_id) stream_id m.calls;
}

pub get_client_call_stream_ids : ℕ → ℕ → Uploads → List ℕ
get_client_call_stream_ids connection call_id m = ids (m.calls (connection, call_id))

-- The idle timer of a stream goes off.
pub expiring : ℕ → ℕ → Option ClientState → Uploads → Uploads
unfolding abort_client_stream
expiring connection stream_id none m = m
expiring connection stream_id (some st) m =
    if st.timer then abort_client_stream connection stream_id idle_timeout_reason true m else m

pub idle_expired : ℕ → ℕ → Uploads → Uploads
unfolding expiring
idle_expired connection stream_id m =
    expiring connection stream_id (m.streams (connection, stream_id)) m

pub abort_all : ℕ → List ℕ → Text → Bool → Uploads → Uploads
unfolding abort_client_stream
abort_all connection [] reason notify_peer m = m
abort_all connection (id ∷ rest) reason notify_peer m =
    abort_all connection rest reason notify_peer
      (abort_client_stream connection id reason notify_peer m)

pub abort_client_call_streams : ℕ → ℕ → Text → Uploads → Uploads
unfolding abort_all get_client_call_stream_ids
abort_client_call_streams connection call_id reason m =
    abort_all connection (get_client_call_stream_ids connection call_id m) reason true m

abbrev pub pull_size : ℕ → ℕ
pull_size size = if size == 0 then 65535 else size

-- The session's `read` up to the abort: the grant is recorded before its pull is sent, and rolled
-- back if the transport drops the pull.
pub send_pull : ℕ → ℕ → ℕ → (dropped : Bool) → Uploads → Uploads
unfolding grant_client_stream revoke_client_stream_grant
send_pull connection stream_id size dropped m =
    let granted : Uploads = grant_client_stream connection stream_id (pull_size size) m in
    if dropped
    then revoke_client_stream_grant connection stream_id (pull_size size) granted
    else record granted { log = pulled (connection, stream_id) (pull_size size) ∷ granted.log }

-- The whole `read`: behind a dropped pull the stream is aborted.
pub read_client_stream : ℕ → ℕ → ℕ → (dropped : Bool) → Uploads → Uploads
unfolding send_pull abort_client_stream
read_client_stream connection stream_id size dropped m =
    let after : Uploads = send_pull connection stream_id size dropped m in
    if dropped then abort_client_stream connection stream_id drop_reason true after else after

-- The client streams' half of `cleanupConnection`.
pub cleanup_connection : ℕ → Uploads → Uploads
unfolding abort_all
cleanup_connection connection m =
    abort_all connection (ids (m.connections (of_connection connection))) closed_reason false m

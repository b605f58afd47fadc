-- ===== src/Wire/Downlink.antt =====
-- Server to client: the client's `decodeMessage` reads what the server's `encodeMessage` wrote.
use mathlib.Core.List.{append-nil}
use neemata.Common.{◌<◌, ◌≡◌, none, some, List, [], ok, ◌>>=◌}
use neemata.Wire.Bytes.{Wire, concat-eq-flatten, decode-encode_uint32}
use neemata.Wire.Messages.{ServerMessage, Received, Announced, Codec, IsFaithful}
use neemata.Wire.Reasons.{kept_reason, IsReadable, decode_reason-encode_reason}
use neemata.Wire.Uplink.{word32}
use neemata.Wire.Server.{encode_server_message}
use neemata.Wire.Client.{decode_server_message, Decoded}

-- Numbers fit their fields, and texts are well formed.
abbrev pub InRange : {V : Type 0} → ServerMessage V → Type 0
InRange (ServerMessage.rpc_response id result streams error) = id < word32
InRange (ServerMessage.rpc_stream_response id) = id < word32
InRange (ServerMessage.rpc_stream_chunk id chunk) = id < word32
InRange (ServerMessage.rpc_stream_end id) = id < word32
InRange (ServerMessage.rpc_stream_abort id reason) = (id < word32) × IsReadable reason
InRange (ServerMessage.pong nonce) = nonce < word32
InRange (ServerMessage.ping nonce) = nonce < word32
InRange (ServerMessage.client_blob_pull id size) = (id < word32) × (size < word32)
InRange (ServerMessage.client_blob_abort id reason) = (id < word32) × IsReadable reason
InRange (ServerMessage.server_blob_push id chunk) = id < word32
InRange (ServerMessage.server_blob_end id) = id < word32
InRange (ServerMessage.server_blob_abort id reason) = (id < word32) × IsReadable reason

-- What the client is told, and the server streams that it registers.
abbrev pub received : {V : Type 0} → ServerMessage V → Received V × List Announced
received (ServerMessage.rpc_response id result streams none) =
    (Received.responded id result, streams)
received (ServerMessage.rpc_response id result streams (some error)) =
    (Received.failed id error, [])
received (ServerMessage.rpc_stream_response id) = (Received.stream_opened id none, [])
received (ServerMessage.rpc_stream_chunk id chunk) = (Received.stream_chunk id chunk, [])
received (ServerMessage.rpc_stream_end id) = (Received.stream_end id, [])
received (ServerMessage.rpc_stream_abort id reason) =
    (Received.stream_abort id (kept_reason reason), [])
received (ServerMessage.pong nonce) = (Received.pong nonce, [])
received (ServerMessage.ping nonce) = (Received.ping nonce, [])
received (ServerMessage.client_blob_pull id size) = (Received.client_pull id size, [])
received (ServerMessage.client_blob_abort id reason) =
    (Received.client_abort id (kept_reason reason), [])
received (ServerMessage.server_blob_push id chunk) = (Received.server_push id chunk, [])
received (ServerMessage.server_blob_end id) = (Received.server_end id none, [])
received (ServerMessage.server_blob_abort id reason) =
    (Received.server_abort id (kept_reason reason), [])

module _ (codec : Codec) (faithful : IsFaithful codec) where
  abbrev sent : ServerMessage codec.Value → Wire (Decoded codec)
  sent m = encode_server_message codec m >>= decode_server_message codec

  -- Under a format that reads back what it wrote, whatever message in range the server sends, the
  -- client reads that message, with the streams that a successful response announces; an empty abort
  -- reason arrives as none.
  pub downlink-received : (m : ServerMessage codec.Value) → InRange m → sent m ≡ ok (received m)
  unfolding encode_server_message decode_server_message
  downlink-received (ServerMessage.rpc_response id result streams none) h = rw (
    concat-eq-flatten,
    decode-encode_uint32 id h,
    append-nil,
    faithful.decode_rpc-encode_rpc result streams,
  )
  downlink-received (ServerMessage.rpc_response id result streams (some error)) h =
      rw (concat-eq-flatten, decode-encode_uint32 id h, append-nil, faithful.decode-encode error)
  downlink-received (ServerMessage.rpc_stream_response id) h =
      rw (concat-eq-flatten, decode-encode_uint32 id h)
  downlink-received (ServerMessage.rpc_stream_chunk id chunk) h =
      rw (concat-eq-flatten, decode-encode_uint32 id h, append-nil)
  downlink-received (ServerMessage.rpc_stream_end id) h =
      rw (concat-eq-flatten, decode-encode_uint32 id h)
  downlink-received (ServerMessage.rpc_stream_abort id reason) h = rw (
    concat-eq-flatten,
    decode-encode_uint32 id h.0,
    append-nil,
    decode_reason-encode_reason reason h.1,
  )
  downlink-received (ServerMessage.pong n) h = rw (concat-eq-flatten, decode-encode_uint32 n h)
  downlink-received (ServerMessage.ping n) h = rw (concat-eq-flatten, decode-encode_uint32 n h)
  downlink-received (ServerMessage.client_blob_pull id size) h =
      rw (concat-eq-flatten, decode-encode_uint32 id h.0, decode-encode_uint32 size h.1)
  downlink-received (ServerMessage.client_blob_abort id reason) h = rw (
    concat-eq-flatten,
    decode-encode_uint32 id h.0,
    append-nil,
    decode_reason-encode_reason reason h.1,
  )
  downlink-received (ServerMessage.server_blob_push id chunk) h =
      rw (concat-eq-flatten, decode-encode_uint32 id h, append-nil)
  downlink-received (ServerMessage.server_blob_end id) h =
      rw (concat-eq-flatten, decode-encode_uint32 id h)
  downlink-received (ServerMessage.server_blob_abort id reason) h = rw (
    concat-eq-flatten,
    decode-encode_uint32 id h.0,
    append-nil,
    decode_reason-encode_reason reason h.1,
  )

-- ===== src/Wire/Messages.antt =====
-- The messages of packages/protocol/src/common/enums.ts, server/protocol.ts and client/protocol.ts,
-- and the message context: the codecs of the payloads and the registration of streams.
use neemata.Common.{ℕ, ◌≡◌, Option, none, some, List, [], ◌∷◌, ok, err}
use neemata.Wire.Bytes.{Bytes, Wire, bad_payload}
use neemata.Wire.Utf8.{Text, encode_text, decode_text}

-- `ClientMessageType`: what a client sends.
pub data ClientMessageType : Type 0 where
  rpc rpc_abort rpc_stream_pull ping pong : ClientMessageType
  client_blob_push client_blob_end client_blob_abort : ClientMessageType
  server_blob_abort server_blob_pull : ClientMessageType

abbrev pub client_code : ClientMessageType → ℕ
client_code ClientMessageType.rpc = 10
client_code ClientMessageType.rpc_abort = 11
client_code ClientMessageType.rpc_stream_pull = 12
client_code ClientMessageType.ping = 13
client_code ClientMessageType.pong = 14
client_code ClientMessageType.client_blob_push = 20
client_code ClientMessageType.client_blob_end = 21
client_code ClientMessageType.client_blob_abort = 22
client_code ClientMessageType.server_blob_abort = 33
client_code ClientMessageType.server_blob_pull = 34

-- `ServerMessageType`: what a server sends.
pub data ServerMessageType : Type 0 where
  rpc_response rpc_stream_response rpc_stream_chunk rpc_stream_end : ServerMessageType
  rpc_stream_abort pong ping server_blob_push server_blob_end : ServerMessageType
  server_blob_abort client_blob_abort client_blob_pull : ServerMessageType

abbrev pub server_code : ServerMessageType → ℕ
server_code ServerMessageType.rpc_response = 10
server_code ServerMessageType.rpc_stream_response = 11
server_code ServerMessageType.rpc_stream_chunk = 12
server_code ServerMessageType.rpc_stream_end = 13
server_code ServerMessageType.rpc_stream_abort = 14
server_code ServerMessageType.pong = 15
server_code ServerMessageType.ping = 16
server_code ServerMessageType.server_blob_push = 20
server_code ServerMessageType.server_blob_end = 21
server_code ServerMessageType.server_blob_abort = 22
server_code ServerMessageType.client_blob_abort = 33
server_code ServerMessageType.client_blob_pull = 34

-- `MessageByteLength`, in bytes.
abbrev pub message_type_length : ℕ
message_type_length = 1

abbrev pub message_error_length : ℕ
message_error_length = 1

abbrev pub procedure_length_length : ℕ
procedure_length_length = 2

abbrev pub call_id_length : ℕ
call_id_length = 4

abbrev pub stream_id_length : ℕ
stream_id_length = 4

abbrev pub chunk_size_length : ℕ
chunk_size_length = 4

-- `ClientMessageTypePayload`, over the type of the call's payloads.
pub data ClientMessage (V : Type 0) : Type 0 where
  rpc : (call_id : ℕ) (procedure : Text) (payload : V) → ClientMessage V
  rpc_abort : (call_id : ℕ) (reason : Option Text) → ClientMessage V
  rpc_stream_pull : (call_id size : ℕ) → ClientMessage V
  ping : (nonce : ℕ) → ClientMessage V
  pong : (nonce : ℕ) → ClientMessage V
  client_blob_push : (stream_id : ℕ) (chunk : Bytes) → ClientMessage V
  client_blob_end : (stream_id : ℕ) → ClientMessage V
  client_blob_abort : (stream_id : ℕ) (reason : Option Text) → ClientMessage V
  server_blob_abort : (stream_id : ℕ) (reason : Option Text) → ClientMessage V
  server_blob_pull : (stream_id size : ℕ) → ClientMessage V

-- A stream that a payload announces: its id, and its metadata as the codec's own bytes.
pub record Announced : Type 0 where
  pub stream_id : ℕ
  pub metadata : Bytes

-- `ServerMessageTypePayload`. A response with an error has a truthy `error`.
pub data ServerMessage (V : Type 0) : Type 0 where
  rpc_response :
      (call_id : ℕ) (result : V) (streams : List Announced) (error : Option V) → ServerMessage V
  rpc_stream_response : (call_id : ℕ) → ServerMessage V
  rpc_stream_chunk : (call_id : ℕ) (chunk : Bytes) → ServerMessage V
  rpc_stream_end : (call_id : ℕ) → ServerMessage V
  rpc_stream_abort : (call_id : ℕ) (reason : Option Text) → ServerMessage V
  pong : (nonce : ℕ) → ServerMessage V
  ping : (nonce : ℕ) → ServerMessage V
  client_blob_pull : (stream_id size : ℕ) → ServerMessage V
  client_blob_abort : (stream_id : ℕ) (reason : Option Text) → ServerMessage V
  server_blob_push : (stream_id : ℕ) (chunk : Bytes) → ServerMessage V
  server_blob_end : (stream_id : ℕ) → ServerMessage V
  server_blob_abort : (stream_id : ℕ) (reason : Option Text) → ServerMessage V

-- What the client's `decodeMessage` returns.
pub data Received (V : Type 0) : Type 0 where
  failed : (call_id : ℕ) (error : V) → Received V
  responded : (call_id : ℕ) (result : V) → Received V
  stream_opened : (call_id : ℕ) (error : Option V) → Received V
  stream_chunk : (call_id : ℕ) (chunk : Bytes) → Received V
  stream_end : (call_id : ℕ) → Received V
  stream_abort : (call_id : ℕ) (reason : Option Text) → Received V
  pong : (nonce : ℕ) → Received V
  ping : (nonce : ℕ) → Received V
  client_pull : (stream_id size : ℕ) → Received V
  client_abort : (stream_id : ℕ) (reason : Option Text) → Received V
  server_push : (stream_id : ℕ) (chunk : Bytes) → Received V
  server_end : (stream_id : ℕ) (reason : Option Text) → Received V
  server_abort : (stream_id : ℕ) (reason : Option Text) → Received V

-- `MessageContext.encoder` and `.decoder`: the format that was negotiated. Decoding may throw.
-- `encode_rpc` registers the payload's streams, and `decode_rpc` reports them to `addStream`.
pub record Codec : Type 1 where
  pub Value : Type 0
  pub encode : Value → Bytes
  pub decode : Bytes → Option Value
  pub encode_rpc : Value → List Announced → Bytes
  pub decode_rpc : Bytes → Option (Value × List Announced)

-- What a format promises: it reads back what it wrote.
pub record IsFaithful (codec : Codec) : Type 0 where
  pub decode-encode : (v : codec.Value) → codec.decode (codec.encode v) ≡ some v
  pub decode_rpc-encode_rpc :
      (v : codec.Value) (streams : List Announced)
      → codec.decode_rpc (codec.encode_rpc v streams) ≡ some (v, streams)

abbrev pub or_throw : {A : Type 0} → Option A → Wire A
or_throw none = err bad_payload
or_throw (some a) = ok a

-- `reason ? encodeText(reason) : empty`, and its reading.
abbrev pub encode_reason : Option Text → Bytes
encode_reason none = []
encode_reason (some []) = []
encode_reason (some (c ∷ cs)) = encode_text (c ∷ cs)

abbrev pub decode_reason : Bytes → Option Text
decode_reason [] = none
decode_reason (b ∷ bs) = some (decode_text (b ∷ bs))

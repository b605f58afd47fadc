-- ===== src/Wire/Server.antt =====
-- packages/protocol/src/server/versions/v1.ts: the server's `decodeMessage` and `encodeMessage`.
use neemata.Common.{
  ℕ, ◌+◌, not, Option, none, some, List, [], ◌∷◌, map, ok, err, ◌>>=◌, ltb, ◌==◌, if◌then◌else◌,
  length, take, drop,
}
use neemata.Wire.Bytes.{
  Bytes, Wire, malformed_rpc, malformed_pull, unsupported, encode_uint8, encode_uint32,
  decode_uint8, decode_uint16, decode_uint32, concat,
}
use neemata.Wire.Utf8.{decode_utf8}
use neemata.Wire.Messages.{
  ClientMessageType, client_code, ServerMessageType, server_code, ClientMessage, ServerMessage,
  Announced, Codec, or_throw, encode_reason, decode_reason, message_type_length, call_id_length,
  stream_id_length, chunk_size_length, procedure_length_length,
}

-- A call of `context.addClientStream`.
pub record ClientStream : Type 0 where
  pub call_id : ℕ
  pub stream : Announced

abbrev pub for_call : ℕ → Announced → ClientStream
for_call call_id a = record { call_id = call_id; stream = a }

module _ (codec : Codec) where
  open codec use {Value, encode, decode, encode_rpc, decode_rpc}

  -- A decoded message, and the client streams that decoding it registered.
  abbrev pub Decoded : Type 0
  Decoded = ClientMessage Value × List ClientStream

  abbrev plain : ClientMessage Value → Wire Decoded
  plain m = ok (m, [])

  pub decode_rpc_call : Bytes → Wire Decoded
  decode_rpc_call payload = do
    call_id ← decode_uint32 payload 0
    size ← decode_uint16 payload call_id_length
    let offset = call_id_length + procedure_length_length
    let procedure = decode_utf8 (take size (drop offset payload))
    let rest = drop (offset + size) payload
    if ltb (length payload) (offset + size) then err (malformed_rpc size) else do
      (value, streams) ← or_throw (decode_rpc rest)
      ok (ClientMessage.rpc call_id procedure value, map (for_call call_id) streams)

  pub decode_with_reason : (ℕ → Option (List ℕ) → ClientMessage Value) → Bytes → Wire Decoded
  decode_with_reason make payload = do
    id ← decode_uint32 payload 0
    plain (make id (decode_reason (drop call_id_length payload)))

  pub decode_number : (ℕ → ClientMessage Value) → Bytes → Wire Decoded
  decode_number make payload = do n ← decode_uint32 payload 0; plain (make n)

  pub decode_stream_pull : Bytes → Wire Decoded
  decode_stream_pull payload =
      if not (length payload == call_id_length + chunk_size_length)
      then err (malformed_pull (length payload))
      else do
        call_id ← decode_uint32 payload 0
        size ← decode_uint32 payload call_id_length
        plain (ClientMessage.rpc_stream_pull call_id size)

  pub decode_blob_pull : Bytes → Wire Decoded
  decode_blob_pull payload = do
    stream_id ← decode_uint32 payload 0
    size ← decode_uint32 payload stream_id_length
    plain (ClientMessage.server_blob_pull stream_id size)

  pub decode_blob_push : Bytes → Wire Decoded
  decode_blob_push payload = do
    stream_id ← decode_uint32 payload 0
    plain (ClientMessage.client_blob_push stream_id (drop stream_id_length payload))

  -- The `switch` on the message's type.
  pub decode_payload : ℕ → Bytes → Wire Decoded
  unfolding decode_rpc_call decode_with_reason decode_number decode_stream_pull decode_blob_pull
      decode_blob_push
  decode_payload code payload =
      if code == client_code ClientMessageType.rpc
      then decode_rpc_call payload
      else if code == client_code ClientMessageType.rpc_abort
      then decode_with_reason ClientMessage.rpc_abort payload
      else if code == client_code ClientMessageType.rpc_stream_pull
      then decode_stream_pull payload
      else if code == client_code ClientMessageType.ping
      then decode_number ClientMessage.ping payload
      else if code == client_code ClientMessageType.pong
      then decode_number ClientMessage.pong payload
      else if code == client_code ClientMessageType.server_blob_abort
      then decode_with_reason ClientMessage.server_blob_abort payload
      else if code == client_code ClientMessageType.server_blob_pull
      then decode_blob_pull payload
      else if code == client_code ClientMessageType.client_blob_abort
      then decode_with_reason ClientMessage.client_blob_abort payload
      else if code == client_code ClientMessageType.client_blob_end
      then decode_number ClientMessage.client_blob_end payload
      else if code == client_code ClientMessageType.client_blob_push
      then decode_blob_push payload
      else err (unsupported code)

  unfoldable pub decode_client_message : Bytes → Wire Decoded
  unfolding decode_payload
  decode_client_message buffer = do
    code ← decode_uint8 buffer 0
    decode_payload code (drop message_type_length buffer)

  abbrev frame : ServerMessageType → List Bytes → Wire Bytes
  frame type chunks = concat (encode_uint8 (server_code type) ∷ chunks)

  response_body : Value → List Announced → Option Value → List Bytes
  response_body result streams none = encode_uint8 0 ∷ encode_rpc result streams ∷ []
  response_body result streams (some error) = encode_uint8 1 ∷ encode error ∷ []

  unfoldable pub encode_server_message : ServerMessage Value → Wire Bytes
  unfolding response_body
  encode_server_message (ServerMessage.rpc_response call_id result streams error) =
      frame ServerMessageType.rpc_response
        (encode_uint32 call_id ∷ response_body result streams error)
  encode_server_message (ServerMessage.rpc_stream_response call_id) =
      frame ServerMessageType.rpc_stream_response (encode_uint32 call_id ∷ [])
  encode_server_message (ServerMessage.rpc_stream_chunk call_id chunk) =
      frame ServerMessageType.rpc_stream_chunk (encode_uint32 call_id ∷ chunk ∷ [])
  encode_server_message (ServerMessage.rpc_stream_end call_id) =
      frame ServerMessageType.rpc_stream_end (encode_uint32 call_id ∷ [])
  encode_server_message (ServerMessage.rpc_stream_abort call_id reason) =
      frame ServerMessageType.rpc_stream_abort (encode_uint32 call_id ∷ encode_reason reason ∷ [])
  encode_server_message (ServerMessage.pong nonce) =
      frame ServerMessageType.pong (encode_uint32 nonce ∷ [])
  encode_server_message (ServerMessage.ping nonce) =
      frame ServerMessageType.ping (encode_uint32 nonce ∷ [])
  encode_server_message (ServerMessage.client_blob_pull stream_id size) =
      frame ServerMessageType.client_blob_pull (encode_uint32 stream_id ∷ encode_uint32 size ∷ [])
  encode_server_message (ServerMessage.client_blob_abort stream_id reason) =
      frame ServerMessageType.client_blob_abort
        (encode_uint32 stream_id ∷ encode_reason reason ∷ [])
  encode_server_message (ServerMessage.server_blob_push stream_id chunk) =
      frame ServerMessageType.server_blob_push (encode_uint32 stream_id ∷ chunk ∷ [])
  encode_server_message (ServerMessage.server_blob_end stream_id) =
      frame ServerMessageType.server_blob_end (encode_uint32 stream_id ∷ [])
  encode_server_message (ServerMessage.server_blob_abort stream_id reason) =
      frame ServerMessageType.server_blob_abort
        (encode_uint32 stream_id ∷ encode_reason reason ∷ [])

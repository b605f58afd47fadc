-- ===== src/Wire/Client.antt =====
-- packages/protocol/src/client/versions/v1.ts: the client's `encodeMessage` and `decodeMessage`.
use neemata.Common.{
  ℕ, ◌+◌, Option, none, some, List, [], ◌∷◌, ok, err, ◌>>=◌, ◌==◌, if◌then◌else◌, length, drop,
}
use neemata.Wire.Bytes.{
  Bytes, Wire, unsupported, encode_uint8, encode_uint16, encode_uint32, decode_uint8, decode_uint32,
  concat,
}
use neemata.Wire.Utf8.{encode_text}
use neemata.Wire.Messages.{
  ClientMessageType, client_code, ServerMessageType, server_code, ClientMessage, Received,
  Announced, Codec, or_throw, encode_reason, decode_reason, message_type_length,
  message_error_length, call_id_length, stream_id_length,
}

module _ (codec : Codec) where
  open codec use {Value, encode, decode, encode_rpc, decode_rpc}

  abbrev frame : ClientMessageType → List Bytes → Wire Bytes
  frame type chunks = concat (encode_uint8 (client_code type) ∷ chunks)

  -- `streams` are those of the payload's blobs, as `context.addClientStream` registers them.
  unfoldable pub encode_client_message : List Announced → ClientMessage Value → Wire Bytes
  encode_client_message streams (ClientMessage.rpc call_id procedure payload) =
      let buffer = encode_text procedure in
      frame ClientMessageType.rpc (
        encode_uint32 call_id
        ∷ encode_uint16 (length buffer)
        ∷ buffer
        ∷ encode_rpc payload streams
        ∷ [])
  encode_client_message streams (ClientMessage.rpc_abort call_id reason) =
      frame ClientMessageType.rpc_abort (encode_uint32 call_id ∷ encode_reason reason ∷ [])
  encode_client_message streams (ClientMessage.rpc_stream_pull call_id size) =
      frame ClientMessageType.rpc_stream_pull (encode_uint32 call_id ∷ encode_uint32 size ∷ [])
  encode_client_message streams (ClientMessage.ping nonce) =
      frame ClientMessageType.ping (encode_uint32 nonce ∷ [])
  encode_client_message streams (ClientMessage.pong nonce) =
      frame ClientMessageType.pong (encode_uint32 nonce ∷ [])
  encode_client_message streams (ClientMessage.client_blob_push stream_id chunk) =
      frame ClientMessageType.client_blob_push (encode_uint32 stream_id ∷ chunk ∷ [])
  encode_client_message streams (ClientMessage.client_blob_end stream_id) =
      frame ClientMessageType.client_blob_end (encode_uint32 stream_id ∷ [])
  encode_client_message streams (ClientMessage.client_blob_abort stream_id reason) =
      frame ClientMessageType.client_blob_abort
        (encode_uint32 stream_id ∷ encode_reason reason ∷ [])
  encode_client_message streams (ClientMessage.server_blob_abort stream_id reason) =
      frame ClientMessageType.server_blob_abort
        (encode_uint32 stream_id ∷ encode_reason reason ∷ [])
  encode_client_message streams (ClientMessage.server_blob_pull stream_id size) =
      frame ClientMessageType.server_blob_pull (encode_uint32 stream_id ∷ encode_uint32 size ∷ [])

  -- A decoded message, and the server streams that decoding it registered.
  abbrev pub Decoded : Type 0
  Decoded = Received Value × List Announced

  abbrev plain : Received Value → Wire Decoded
  plain m = ok (m, [])

  decode_response : Bytes → Wire Decoded
  decode_response payload = do
    call_id ← decode_uint32 payload 0
    is_error ← decode_uint8 payload call_id_length
    let body = drop (call_id_length + message_error_length) payload
    if is_error == 0
        then (do
          (result, streams) ← or_throw (decode_rpc body)
          ok (Received.responded call_id result, streams))
        else (do error ← or_throw (decode body); plain (Received.failed call_id error))

  stream_error : Bytes → Wire (Option Value)
  stream_error [] = ok none
  stream_error (b ∷ bs) = do error ← or_throw (decode (b ∷ bs)); ok (some error)

  decode_stream_response : Bytes → Wire Decoded
  unfolding stream_error
  decode_stream_response payload = do
    call_id ← decode_uint32 payload 0
    error ← stream_error (drop call_id_length payload)
    plain (Received.stream_opened call_id error)

  decode_number : (ℕ → Received Value) → Bytes → Wire Decoded
  decode_number make payload = do n ← decode_uint32 payload 0; plain (make n)

  decode_chunk : (ℕ → Bytes → Received Value) → Bytes → Wire Decoded
  decode_chunk make payload = do
    id ← decode_uint32 payload 0
    plain (make id (drop call_id_length payload))

  decode_with_reason : (ℕ → Option (List ℕ) → Received Value) → Bytes → Wire Decoded
  decode_with_reason make payload = do
    id ← decode_uint32 payload 0
    plain (make id (decode_reason (drop call_id_length payload)))

  decode_blob_pull : Bytes → Wire Decoded
  decode_blob_pull payload = do
    stream_id ← decode_uint32 payload 0
    size ← decode_uint32 payload stream_id_length
    plain (Received.client_pull stream_id size)

  decode_payload : ℕ → Bytes → Wire Decoded
  unfolding decode_response decode_stream_response decode_number decode_chunk decode_with_reason
      decode_blob_pull
  decode_payload code payload =
      if code == server_code ServerMessageType.rpc_response
      then decode_response payload
      else if code == server_code ServerMessageType.rpc_stream_response
      then decode_stream_response payload
      else if code == server_code ServerMessageType.rpc_stream_chunk
      then decode_chunk Received.stream_chunk payload
      else if code == server_code ServerMessageType.rpc_stream_end
      then decode_number Received.stream_end payload
      else if code == server_code ServerMessageType.rpc_stream_abort
      then decode_with_reason Received.stream_abort payload
      else if code == server_code ServerMessageType.pong
      then decode_number Received.pong payload
      else if code == server_code ServerMessageType.ping
      then decode_number Received.ping payload
      else if code == server_code ServerMessageType.client_blob_pull
      then decode_blob_pull payload
      else if code == server_code ServerMessageType.client_blob_abort
      then decode_with_reason Received.client_abort payload
      else if code == server_code ServerMessageType.server_blob_push
      then decode_chunk Received.server_push payload
      else if code == server_code ServerMessageType.server_blob_end
      then decode_with_reason Received.server_end payload
      else if code == server_code ServerMessageType.server_blob_abort
      then decode_with_reason Received.server_abort payload
      else err (unsupported code)

  unfoldable pub decode_server_message : Bytes → Wire Decoded
  unfolding decode_payload
  decode_server_message buffer = do
    code ← decode_uint8 buffer 0
    decode_payload code (drop message_type_length buffer)

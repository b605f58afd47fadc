-- ===== src/Wire/Uplink.antt =====
-- Client to server: the server's `decodeMessage` reads what the client's `encodeMessage` wrote.
use mathlib.Core.List.{append-nil}
use neemata.Common.{
  ℕ, suc, ◌+◌, ◌/◌, ◌%◌, ◌<◌, ◌≡◌, ap, ◌∙◌, false, List, [], ◌∷◌, ◌++◌, map, arith, ok, ◌>>=◌, ltb,
  length, drop, length-append, take-append_length, drop-append_length,
}
use neemata.Wire.Bytes.{Bytes, Wire, concat-eq-flatten, decode-encode_uint16, decode-encode_uint32}
use neemata.Wire.Utf8.{Text, AllScalar, encode_text}
use neemata.Wire.Utf8.RoundTrip.{decode_utf8-encode_text}
use neemata.Wire.Messages.{ClientMessage, Announced, Codec, IsFaithful}
use neemata.Wire.Reasons.{kept_reason, IsReadable, decode_reason-encode_reason}
use neemata.Wire.Server.{decode_client_message, Decoded, ClientStream, for_call}
use neemata.Wire.Client.{encode_client_message}

abbrev pub word32 : ℕ
word32 = 4294967296

abbrev pub word16 : ℕ
word16 = 65536

-- Numbers fit their fields, the procedure's name has fewer than 65536 bytes, texts are well formed.
abbrev pub InRange : {V : Type 0} → ClientMessage V → Type 0
InRange (ClientMessage.rpc call_id procedure payload) =
    (call_id < word32) × (length (encode_text procedure) < word16) × AllScalar procedure
InRange (ClientMessage.rpc_abort call_id reason) = (call_id < word32) × IsReadable reason
InRange (ClientMessage.rpc_stream_pull call_id size) = (call_id < word32) × (size < word32)
InRange (ClientMessage.ping nonce) = nonce < word32
InRange (ClientMessage.pong nonce) = nonce < word32
InRange (ClientMessage.client_blob_push stream_id chunk) = stream_id < word32
InRange (ClientMessage.client_blob_end stream_id) = stream_id < word32
InRange (ClientMessage.client_blob_abort stream_id reason) =
    (stream_id < word32) × IsReadable reason
InRange (ClientMessage.server_blob_abort stream_id reason) =
    (stream_id < word32) × IsReadable reason
InRange (ClientMessage.server_blob_pull stream_id size) = (stream_id < word32) × (size < word32)

-- The message that arrives: an empty reason is none.
abbrev pub delivered : {V : Type 0} → ClientMessage V → ClientMessage V
delivered (ClientMessage.rpc_abort id reason) = ClientMessage.rpc_abort id (kept_reason reason)
delivered (ClientMessage.client_blob_abort id reason) =
    ClientMessage.client_blob_abort id (kept_reason reason)
delivered (ClientMessage.server_blob_abort id reason) =
    ClientMessage.server_blob_abort id (kept_reason reason)
delivered (ClientMessage.rpc id procedure payload) = ClientMessage.rpc id procedure payload
delivered m = m

-- The client streams that the server registers: a call's, under its id.
abbrev pub registered : {V : Type 0} → ClientMessage V → List Announced → List ClientStream
registered (ClientMessage.rpc id procedure payload) streams = map (for_call id) streams
registered (ClientMessage.ping n) streams = []
registered m streams = []

-- Behind the six bytes of a call's fixed part stand the procedure's name and the payload.
abbrev behind_six : ℕ → ℕ → ℕ → ℕ → ℕ → ℕ → Bytes → Bytes
behind_six a b c d e f l = a ∷ b ∷ c ∷ d ∷ e ∷ f ∷ l

frame_fits :
    (a b c d e f : ℕ) (xs ys : Bytes)
    → ltb (length (behind_six a b c d e f (xs ++ ys))) (6 + length xs) ≡ false
frame_fits a b c d e f xs ys = rw (length-append xs ys) (ground arith)

drop-behind_six :
    (a b c d e f : ℕ) (xs ys : Bytes)
    → drop (6 + length xs) (behind_six a b c d e f (xs ++ ys)) ≡ ys
drop-behind_six a b c d e f xs ys =
    let six : 6 + length xs ≡ suc (suc (suc (suc (suc (suc (length xs)))))) = omega arith in
    ap (λ n. drop n (behind_six a b c d e f (xs ++ ys))) six ∙ drop-append_length xs ys

module _ (codec : Codec) (faithful : IsFaithful codec) (streams : List Announced) where
  abbrev sent : ClientMessage codec.Value → Wire (Decoded codec)
  sent m = encode_client_message codec streams m >>= decode_client_message codec

  rpc-sent :
      (id : ℕ) (p : Text) (v : codec.Value)
      → id < word32
      → length (encode_text p) < word16
      → AllScalar p
      → sent (ClientMessage.rpc id p v) ≡ ok (ClientMessage.rpc id p v, map (for_call id) streams)
  unfolding encode_client_message decode_client_message
  rpc-sent id p v h small scalar = rw (
    concat-eq-flatten,
    decode-encode_uint32 id h,
    decode-encode_uint16 (length (encode_text p)) small,
    append-nil,
    frame_fits 0 0 0 0 0 0 (encode_text p) (codec.encode_rpc v streams),
    drop-behind_six (id % 256) (id / 256 % 256) (id / 65536 % 256) (id / 16777216 % 256)
        (length (encode_text p) % 256) (length (encode_text p) / 256 % 256) (encode_text p)
        (codec.encode_rpc v streams),
    take-append_length (encode_text p) (codec.encode_rpc v streams),
    decode_utf8-encode_text p scalar,
    faithful.decode_rpc-encode_rpc v streams,
  )

  -- Under a format that reads back what it wrote, whatever message in range the client sends, the
  -- server reads that message, and registers the payload's streams under the call's id; an empty
  -- abort reason arrives as none.
  pub uplink-delivered :
      (m : ClientMessage codec.Value) → InRange m → sent m ≡ ok (delivered m, registered m streams)
  unfolding encode_client_message decode_client_message
  uplink-delivered (ClientMessage.rpc id p v) h = rpc-sent id p v h.0 h.1 h.2
  uplink-delivered (ClientMessage.rpc_abort id r) h = rw (
    concat-eq-flatten,
    decode-encode_uint32 id h.0,
    append-nil,
    decode_reason-encode_reason r h.1,
  )
  uplink-delivered (ClientMessage.rpc_stream_pull id size) h =
      rw (concat-eq-flatten, decode-encode_uint32 id h.0, decode-encode_uint32 size h.1)
  uplink-delivered (ClientMessage.ping n) h = rw (concat-eq-flatten, decode-encode_uint32 n h)
  uplink-delivered (ClientMessage.pong n) h = rw (concat-eq-flatten, decode-encode_uint32 n h)
  uplink-delivered (ClientMessage.client_blob_push id chunk) h =
      rw (concat-eq-flatten, decode-encode_uint32 id h, append-nil)
  uplink-delivered (ClientMessage.client_blob_end id) h =
      rw (concat-eq-flatten, decode-encode_uint32 id h)
  uplink-delivered (ClientMessage.client_blob_abort id r) h = rw (
    concat-eq-flatten,
    decode-encode_uint32 id h.0,
    append-nil,
    decode_reason-encode_reason r h.1,
  )
  uplink-delivered (ClientMessage.server_blob_abort id r) h = rw (
    concat-eq-flatten,
    decode-encode_uint32 id h.0,
    append-nil,
    decode_reason-encode_reason r h.1,
  )
  uplink-delivered (ClientMessage.server_blob_pull id size) h =
      rw (concat-eq-flatten, decode-encode_uint32 id h.0, decode-encode_uint32 size h.1)

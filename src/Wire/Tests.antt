-- ===== src/Wire/Tests.antt =====
-- The wire protocol at concrete messages, under a small format of the payloads.
use neemata.Common.{
  ℕ, zero, suc, ◌≡◌, refl, ap, Option, none, some, List, [], ◌∷◌, arith, ok, ◌>>=◌,
}
use neemata.Wire.Bytes.{Bytes, concat, concat-eq-flatten}
use neemata.Wire.Utf8.{encode_text, decode_text}
use neemata.Wire.Utf8.RoundTrip.{decode_text-encode_text}
use neemata.Wire.Messages.{ClientMessage, ServerMessage, Received, Announced, Codec, IsFaithful}
use neemata.Wire.Server.{decode_client_message, encode_server_message, for_call}
use neemata.Wire.Client.{encode_client_message, decode_server_message}
use neemata.Wire.Uplink.{uplink-delivered}
use neemata.Wire.Downlink.{downlink-received}

-- A stream is its metadata, each byte behind a 1, then a 0 and its id.
abbrev write_metadata : Bytes → Bytes → Bytes
write_metadata [] rest = rest
write_metadata (b ∷ bs) rest = 1 ∷ b ∷ write_metadata bs rest

abbrev write_streams : List Announced → Bytes
write_streams [] = []
write_streams (a ∷ as') = write_metadata a.metadata (0 ∷ a.stream_id ∷ write_streams as')

abbrev extend : ℕ → List Announced → List Announced
extend b [] = []
extend b (a ∷ as') = record a { metadata = b ∷ a.metadata } ∷ as'

abbrev read_streams : Bytes → List Announced
read_streams (zero ∷ id ∷ rest) = record { stream_id = id; metadata = [] } ∷ read_streams rest
read_streams (suc t ∷ b ∷ rest) = extend b (read_streams rest)
read_streams _ = []

abbrev read_value : Bytes → Option ℕ
read_value (v ∷ []) = some v
read_value _ = none

abbrev read_rpc : Bytes → Option (ℕ × List Announced)
read_rpc (v ∷ rest) = some (v, read_streams rest)
read_rpc [] = none

abbrev small_format : Codec
small_format = record {
  Value = ℕ;
  encode = λ v. v ∷ [];
  decode = read_value;
  encode_rpc = λ v streams. v ∷ write_streams streams;
  decode_rpc = read_rpc;
}

module _ (id : ℕ) (rest : List Announced) (h : read_streams (write_streams rest) ≡ rest) where
  read-write_one :
      (bs : Bytes)
      → read_streams (write_metadata bs (0 ∷ id ∷ write_streams rest))
        ≡ record { stream_id = id; metadata = bs } ∷ rest
  read-write_one [] = rw h
  read-write_one (b ∷ bs) = rw (read-write_one bs)

read-write_streams : (l : List Announced) → read_streams (write_streams l) ≡ l
read-write_streams [] = refl
read-write_streams (a ∷ rest) = read-write_one a.stream_id rest (read-write_streams rest) a.metadata

small_format-IsFaithful : IsFaithful small_format
small_format-IsFaithful = record {
  decode-encode = λ v. refl;
  decode_rpc-encode_rpc = λ v streams. ap (λ l. some (v, l)) (read-write_streams streams);
}

abbrev avatar : Announced
avatar = record { stream_id = 9; metadata = 105 ∷ 109 ∷ [] }

-- A call of `é/` with payload 7 and one stream.
abbrev call : ClientMessage ℕ
call = ClientMessage.rpc 70000 (233 ∷ 47 ∷ []) 7

call_frame :
    encode_client_message small_format (avatar ∷ []) call
    ≡ ok (10 ∷ 112 ∷ 17 ∷ 1 ∷ 0 ∷ 3 ∷ 0 ∷ 195 ∷ 169 ∷ 47 ∷ 7 ∷ 1 ∷ 105 ∷ 1 ∷ 109 ∷ 0 ∷ 9 ∷ [])
unfolding encode_client_message concat encode_text
call_frame = refl

uplink-delivered_example :
    (encode_client_message small_format (avatar ∷ []) call >>= decode_client_message small_format)
    ≡ ok (call, for_call 70000 avatar ∷ [])
unfolding encode_text
uplink-delivered_example =
    uplink-delivered small_format small_format-IsFaithful (avatar ∷ []) call (omega arith)

downlink-received_example :
    (encode_server_message small_format (ServerMessage.server_blob_abort 5 (some []))
      >>= decode_server_message small_format)
    ≡ ok (Received.server_abort 5 none, [])
downlink-received_example =
    downlink-received small_format small_format-IsFaithful
      (ServerMessage.server_blob_abort 5 (some [])) (omega arith)

concat-eq-flatten_example : concat ((1 ∷ []) ∷ [] ∷ (2 ∷ 3 ∷ []) ∷ []) ≡ ok (1 ∷ 2 ∷ 3 ∷ [])
concat-eq-flatten_example = concat-eq-flatten ((1 ∷ []) ∷ [] ∷ (2 ∷ 3 ∷ []) ∷ [])

-- "€😀"
decode_text-encode_text_example :
    decode_text (encode_text (8364 ∷ 128512 ∷ [])) ≡ 8364 ∷ 128512 ∷ []
decode_text-encode_text_example =
    decode_text-encode_text (8364 ∷ 128512 ∷ []) (omega arith) (λ e. omega arith)

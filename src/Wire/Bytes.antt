-- ===== src/Wire/Bytes.antt =====
-- packages/protocol/src/common/binary.ts: numbers as little-endian bytes, and the concatenation of
-- buffers. A buffer is the list of its bytes; a read out of range throws, as in `DataView`.
use mathlib.Core.List.{append_assoc}
use neemata.Common.{
  ℕ, ◌+◌, ◌*◌, ◌/◌, ◌%◌, ◌<◌, ◌≡◌, refl, ap, ◌∙◌, List, [], ◌∷◌, ◌++◌, arith, leb, le→leb,
  if◌then◌else◌, length, take, drop, replicate, length-append, take-append_length, drop-append_add,
  length-replicate, drop-replicate, Outcome, ok, err, ◌>>=◌,
}

abbrev pub Bytes : Type 0
Bytes = List ℕ

pub data WireError : Type 0 where
  out_of_range : WireError
  malformed_rpc : ℕ → WireError
  malformed_pull : ℕ → WireError
  unsupported : ℕ → WireError
  bad_payload : WireError

abbrev pub Wire {ℓ} : Type ℓ → Type ℓ
Wire = Outcome WireError

-- `encodeNumber` at the three widths that the protocol uses. `setUint8` and its like wrap.
abbrev pub encode_uint8 : ℕ → Bytes
encode_uint8 n = (n % 256) ∷ []

abbrev pub encode_uint16 : ℕ → Bytes
encode_uint16 n = (n % 256) ∷ (n / 256 % 256) ∷ []

abbrev pub encode_uint32 : ℕ → Bytes
encode_uint32 n = (n % 256) ∷ (n / 256 % 256) ∷ (n / 65536 % 256) ∷ (n / 16777216 % 256) ∷ []

abbrev uint8_at : Bytes → Wire ℕ
uint8_at (a ∷ rest) = ok a
uint8_at [] = err out_of_range

abbrev uint16_at : Bytes → Wire ℕ
uint16_at (a ∷ b ∷ rest) = ok (a + b * 256)
uint16_at _ = err out_of_range

abbrev uint32_at : Bytes → Wire ℕ
uint32_at (a ∷ b ∷ c ∷ d ∷ rest) = ok (a + b * 256 + c * 65536 + d * 16777216)
uint32_at _ = err out_of_range

abbrev pub decode_uint8 : Bytes → ℕ → Wire ℕ
decode_uint8 buffer offset = uint8_at (drop offset buffer)

abbrev pub decode_uint16 : Bytes → ℕ → Wire ℕ
decode_uint16 buffer offset = uint16_at (drop offset buffer)

abbrev pub decode_uint32 : Bytes → ℕ → Wire ℕ
decode_uint32 buffer offset = uint32_at (drop offset buffer)

pub decode-encode_uint16 : (n : ℕ) → n < 65536 → n % 256 + n / 256 % 256 * 256 ≡ n
decode-encode_uint16 n h = omega arith

pub decode-encode_uint32 :
    (n : ℕ)
    → n < 4294967296
    → n % 256 + n / 256 % 256 * 256 + n / 65536 % 256 * 65536 + n / 16777216 % 256 * 16777216 ≡ n
decode-encode_uint32 n h = omega arith

-- `concat`: a zeroed view of the whole length, then one `view.set` for each buffer.
pub total_length : List Bytes → ℕ
total_length [] = 0
total_length (b ∷ bs) = length b + total_length bs

-- `TypedArray.set` throws if the chunk does not fit behind the offset.
pub set_bytes : Bytes → Bytes → ℕ → Wire Bytes
set_bytes view chunk offset =
    if leb (offset + length chunk) (length view)
    then ok (take offset view ++ chunk ++ drop (offset + length chunk) view)
    else err out_of_range

concat_loop : Bytes → ℕ → List Bytes → Wire Bytes
concat_loop view offset [] = ok view
concat_loop view offset (chunk ∷ bs) = do
  view' ← set_bytes view chunk offset
  concat_loop view' (offset + length chunk) bs

unfoldable pub concat : List Bytes → Wire Bytes
unfolding concat_loop set_bytes total_length
concat buffers = concat_loop (replicate (total_length buffers) 0) 0 buffers

abbrev pub flatten : List Bytes → Bytes
flatten [] = []
flatten (b ∷ bs) = b ++ flatten bs

set_bytes-zeros :
    (done chunk : Bytes) (n : ℕ)
    → set_bytes (done ++ replicate (length chunk + n) 0) chunk (length done)
      ≡ ok (done ++ chunk ++ replicate n 0)
unfolding set_bytes
set_bytes-zeros done chunk n = rw (
  length-append done (replicate (length chunk + n) 0),
  length-replicate {A = ℕ} (length chunk + n) 0,
  le→leb (length done + length chunk) (length done + (length chunk + n)) (omega arith),
  take-append_length done (replicate (length chunk + n) 0),
  drop-append_add (length chunk) done (replicate (length chunk + n) 0),
  drop-replicate {A = ℕ} (length chunk) n 0,
)

concat_loop-zeros :
    (buffers : List Bytes) (done : Bytes)
    → concat_loop (done ++ replicate (total_length buffers) 0) (length done) buffers
      ≡ ok (done ++ flatten buffers)
unfolding concat_loop total_length
concat_loop-zeros [] done = refl
concat_loop-zeros (chunk ∷ bs) done = rw (set_bytes-zeros done chunk (total_length bs)) (
    rw (← length-append done chunk)
      (concat_loop-zeros bs (done ++ chunk) ∙ ap ok (append_assoc done chunk (flatten bs))))

-- `concat` never throws, and returns the buffers one behind the other.
pub concat-eq-flatten : (buffers : List Bytes) → concat buffers ≡ ok (flatten buffers)
unfolding concat
concat-eq-flatten buffers = concat_loop-zeros buffers []

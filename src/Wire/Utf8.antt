-- ===== src/Wire/Utf8.antt =====
-- Text on the wire: `encodeText` and `decodeText` of packages/protocol/src/common/binary.ts, and
-- `Buffer.toString('utf-8')`. A text is the list of its Unicode scalar values; the decoder is the
-- one of the encoding standard, which replaces malformed parts by U+FFFD.
pub mod RoundTrip
use neemata.Common.{
  ℕ, suc, ◌+◌, ◌-◌, ◌*◌, ◌/◌, ◌%◌, ◌≤◌, ◌<◌, ◌≡◌, refl, ap, ◌∙◌, ◌≢◌, ◌⊎◌, inl, inr, ◌&&◌, List, [],
  ◌∷◌, ◌++◌, arith, leb, ltb, ltb→lt, Bool-cases, ◌==◌, if◌then◌else◌,
}
use neemata.Wire.Bytes.{Bytes}

abbrev pub Text : Type 0
Text = List ℕ

-- A code point that a well-formed string can hold: no surrogate, and at most U+10FFFF.
abbrev pub IsScalar : ℕ → Type 0
IsScalar c = (c < 0xD800) ⊎ ((0xE000 ≤ c) × (c < 0x110000))

abbrev pub AllScalar : Text → Type 0
AllScalar [] = Unit {0}
AllScalar (c ∷ cs) = IsScalar c × AllScalar cs

pub encode_scalar : ℕ → Bytes
encode_scalar c =
    if ltb c 0x80
    then c ∷ []
    else if ltb c 0x800
    then (0xC0 + c / 64) ∷ (0x80 + c % 64) ∷ []
    else if ltb c 0x10000
    then (0xE0 + c / 4096) ∷ (0x80 + c / 64 % 64) ∷ (0x80 + c % 64) ∷ []
    else (0xF0 + c / 262144) ∷ (0x80 + c / 4096 % 64) ∷ (0x80 + c / 64 % 64) ∷ (0x80 + c % 64) ∷ []

unfoldable pub encode_text : Text → Bytes
unfolding encode_scalar
encode_text [] = []
encode_text (c ∷ cs) = encode_scalar c ++ encode_text cs

-- The decoder's state: the continuation bytes still wanted, the bits seen, and the range of the
-- next continuation byte.
pub record Decoder : Type 0 where
  pub needed : ℕ
  pub code_point : ℕ
  pub lower : ℕ
  pub upper : ℕ

abbrev ready : Decoder
ready = record { needed = 0; code_point = 0; lower = 0x80; upper = 0xBF }

abbrev replacement : ℕ
replacement = 0xFFFD

-- A byte at which a character starts: what it emits, and the state after it.
lead : ℕ → Text × Decoder
lead byte =
    if ltb byte 0x80
    then (byte ∷ [], ready)
    else if leb 0xC2 byte && leb byte 0xDF
    then ([], record { needed = 1; code_point = byte - 0xC0; lower = 0x80; upper = 0xBF })
    else if leb 0xE0 byte && leb byte 0xEF
    then (
      [],
      record {
        needed = 2;
        code_point = byte - 0xE0;
        lower = if byte == 0xE0 then 0xA0 else 0x80;
        upper = if byte == 0xED then 0x9F else 0xBF;
      },
    )
    else if leb 0xF0 byte && leb byte 0xF4
    then (
      [],
      record {
        needed = 3;
        code_point = byte - 0xF0;
        lower = if byte == 0xF0 then 0x90 else 0x80;
        upper = if byte == 0xF4 then 0x8F else 0xBF;
      },
    )
    else (replacement ∷ [], ready)

feed : Decoder → ℕ → Text × Decoder
unfolding lead
feed d byte =
    if d.needed == 0
    then lead byte
    else if leb d.lower byte && leb byte d.upper
    then (let point = d.code_point * 64 + byte % 64 in
        if d.needed == 1
        then (point ∷ [], ready)
        else ([], record { needed = d.needed - 1; code_point = point; lower = 0x80; upper = 0xBF }))
    else (let (out, after) = lead byte in (replacement ∷ out, after))

decode_from : Decoder → Bytes → Text
decode_from d [] = if d.needed == 0 then [] else replacement ∷ []
decode_from d (byte ∷ rest) = let (out, after) = feed d byte in out ++ decode_from after rest

-- `Buffer.toString('utf-8')`.
pub decode_utf8 : Bytes → Text
decode_utf8 = decode_from ready

abbrev drop_bom : Text → Text
drop_bom [] = []
drop_bom (c ∷ cs) = if c == 0xFEFF then cs else c ∷ cs

-- `new TextDecoder().decode`, which also swallows a byte order mark at the start.
pub decode_text : Bytes → Text
decode_text bytes = drop_bom (decode_utf8 bytes)

-- The state in which a character of `n` more bytes has shown its lead byte.

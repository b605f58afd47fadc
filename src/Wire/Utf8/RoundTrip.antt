-- ===== src/Wire/Utf8/RoundTrip.antt =====
-- Reading back the text that was written.
use neemata.Common.{
  ℕ, suc, ◌+◌, ◌*◌, ◌/◌, ◌%◌, ◌≤◌, ◌<◌, ◌≡◌, refl, ap, ◌∙◌, ◌≢◌, inl, inr, [], ◌∷◌, ◌++◌, arith,
  ltb, ltb→lt, Bool-cases, ◌==◌, if◌then◌else◌,
}
use neemata.Wire.Bytes.{Bytes}
use neemata.Wire.Utf8.{
  Text, IsScalar, AllScalar, encode_scalar, encode_text, Decoder, ready, feed, decode_from,
  decode_utf8, decode_text,
}

abbrev begun : ℕ → ℕ → ℕ → ℕ → Decoder
begun n point lo hi = record { needed = n; code_point = point; lower = lo; upper = hi }

feed_one : (c : ℕ) → c < 0x80 → feed ready c ≡ (c ∷ [], ready)
unfolding feed
feed_one c h = ground arith

feed_last :
    (c lo hi : ℕ)
    → lo ≤ 0x80 + c % 64
    → 0x80 + c % 64 ≤ hi
    → feed (begun 1 (c / 64) lo hi) (0x80 + c % 64) ≡ (c ∷ [], ready)
unfolding feed
feed_last c lo hi l h = ground arith

feed_next :
    (n point b lo hi : ℕ)
    → b < 64
    → lo ≤ 0x80 + b
    → 0x80 + b ≤ hi
    → feed (begun (suc (suc n)) point lo hi) (0x80 + b)
      ≡ ([], begun (suc n) (point * 64 + b) 0x80 0xBF)
unfolding feed
feed_next n point b lo hi small l h = ground arith

feed_two : (p : ℕ) → 2 ≤ p → p < 32 → feed ready (0xC0 + p) ≡ ([], begun 1 p 0x80 0xBF)
unfolding feed
feed_two p l h = ground arith

abbrev lower_three : ℕ → ℕ
lower_three p = if p == 0 then 0xA0 else 0x80

abbrev upper_three : ℕ → ℕ
upper_three p = if p == 13 then 0x9F else 0xBF

abbrev lower_four : ℕ → ℕ
lower_four p = if p == 0 then 0x90 else 0x80

abbrev upper_four : ℕ → ℕ
upper_four p = if p == 4 then 0x8F else 0xBF

feed_three :
    (p : ℕ) → p < 16 → feed ready (0xE0 + p) ≡ ([], begun 2 p (lower_three p) (upper_three p))
unfolding feed
feed_three p h = ground arith

feed_four : (p : ℕ) → p < 5 → feed ready (0xF0 + p) ≡ ([], begun 3 p (lower_four p) (upper_four p))
unfolding feed
feed_four p h = ground arith

-- Where the character's bytes are read one by one, its code point comes out.
decode_two :
    (c : ℕ) (rest : Bytes)
    → 0x80 ≤ c
    → c < 0x800
    → decode_from ready ((0xC0 + c / 64) ∷ (0x80 + c % 64) ∷ rest) ≡ c ∷ decode_from ready rest
unfolding decode_from
decode_two c rest l h = rw (
  feed_two (c / 64) (omega arith) (omega arith),
  feed_last c 0x80 0xBF (omega arith) (omega arith),
)

decode_three :
    (c : ℕ) (rest : Bytes)
    → 0x800 ≤ c
    → c < 0x10000
    → IsScalar c
    → decode_from ready ((0xE0 + c / 4096) ∷ (0x80 + c / 64 % 64) ∷ (0x80 + c % 64) ∷ rest)
      ≡ c ∷ decode_from ready rest
unfolding decode_from
decode_three c rest l h s = rw (
  feed_three (c / 4096) (omega arith),
  feed_next 0 (c / 4096) (c / 64 % 64) (lower_three (c / 4096)) (upper_three (c / 4096))
      (omega arith) (ground arith) (ground arith),
  three_point c,
  feed_last c 0x80 0xBF (omega arith) (omega arith),
)
  where
    three_point : (x : ℕ) → x / 4096 * 64 + x / 64 % 64 ≡ x / 64
    three_point x = omega arith

decode_four :
    (c : ℕ) (rest : Bytes)
    → 0x10000 ≤ c
    → c < 0x110000
    → decode_from ready (
        (0xF0 + c / 262144)
        ∷ (0x80 + c / 4096 % 64)
        ∷ (0x80 + c / 64 % 64)
        ∷ (0x80 + c % 64)
        ∷ rest)
      ≡ c ∷ decode_from ready rest
unfolding decode_from
decode_four c rest l h = rw (
  feed_four (c / 262144) (omega arith),
  feed_next 1 (c / 262144) (c / 4096 % 64) (lower_four (c / 262144)) (upper_four (c / 262144))
      (omega arith) (ground arith) (ground arith),
  four_high c,
  feed_next 0 (c / 4096) (c / 64 % 64) 0x80 0xBF (omega arith) (omega arith) (omega arith),
  four_low c,
  feed_last c 0x80 0xBF (omega arith) (omega arith),
)
  where
    four_high : (x : ℕ) → x / 262144 * 64 + x / 4096 % 64 ≡ x / 4096
    four_high x = omega arith

    four_low : (x : ℕ) → x / 4096 * 64 + x / 64 % 64 ≡ x / 64
    four_low x = omega arith

decode_from-encode_scalar :
    (c : ℕ) (rest : Bytes)
    → IsScalar c
    → decode_from ready (encode_scalar c ++ rest) ≡ c ∷ decode_from ready rest
unfolding decode_from encode_scalar
decode_from-encode_scalar c rest s = elim (Bool-cases (ltb c 0x80)) [
  | inl one ↦ rw (one, feed_one c (ltb→lt _ _ one))
  | inr h1 ↦ rw h1 (elim (Bool-cases (ltb c 0x800)) [
    | inl two ↦ rw two (decode_two c rest (ground arith) (ground arith))
    | inr h2 ↦ rw h2 (elim (Bool-cases (ltb c 0x10000)) [
      | inl three ↦ rw three (decode_three c rest (ground arith) (ground arith) s)
      | inr h3 ↦ rw h3 (decode_four c rest (ground arith) (ground arith))
    ])
  ])
]

-- Reading back the bytes of a well-formed text gives the text.
pub decode_utf8-encode_text : (t : Text) → AllScalar t → decode_utf8 (encode_text t) ≡ t
unfolding decode_utf8 encode_text
decode_utf8-encode_text [] s = unfold decode_from in refl
decode_utf8-encode_text (c ∷ cs) s =
    decode_from-encode_scalar c (encode_text cs) s.0
    ∙ ap (λ l. c ∷ l) (decode_utf8-encode_text cs s.1)

abbrev pub NoBom : Text → Type 0
NoBom [] = Unit {0}
NoBom (c ∷ cs) = c ≢ 0xFEFF

-- `decodeText` of the bytes of a well-formed text gives the text, unless the text starts with a byte
-- order mark.
pub decode_text-encode_text : (t : Text) → AllScalar t → NoBom t → decode_text (encode_text t) ≡ t
unfolding decode_text
decode_text-encode_text [] s n = rw (decode_utf8-encode_text [] s)
decode_text-encode_text (c ∷ cs) s n = rw (decode_utf8-encode_text (c ∷ cs) s) (ground arith)

-- The bytes of a text that is not empty are not empty.
pub encode_text-ne-nil : (c : ℕ) (cs : Text) → encode_text (c ∷ cs) ≢ []
unfolding encode_text encode_scalar
encode_text-ne-nil c cs h = ground arith

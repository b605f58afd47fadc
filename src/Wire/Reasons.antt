-- ===== src/Wire/Reasons.antt =====
-- Abort reasons on the wire: what the reader of an abort frame makes of the writer's reason.
use neemata.Common.{◌≡◌, refl, ◌≢◌, Option, none, some, [], ◌∷◌, ap, ◌∙◌}
use neemata.Wire.Bytes.{Bytes}
use neemata.Wire.Utf8.{Text, AllScalar, encode_text, decode_text}
use neemata.Wire.Utf8.RoundTrip.{NoBom, encode_text-ne-nil, decode_text-encode_text}
use neemata.Wire.Messages.{encode_reason, decode_reason}

-- An empty reason is not told from none.
abbrev pub kept_reason : Option Text → Option Text
kept_reason none = none
kept_reason (some []) = none
kept_reason (some (c ∷ cs)) = some (c ∷ cs)

abbrev pub IsReadable : Option Text → Type 0
IsReadable none = Unit {0}
IsReadable (some t) = AllScalar t × NoBom t

decode_reason-ne-nil : (bytes : Bytes) → bytes ≢ [] → decode_reason bytes ≡ some (decode_text bytes)
decode_reason-ne-nil [] h = absurd (h refl)
decode_reason-ne-nil (b ∷ bs) h = refl

pub decode_reason-encode_reason :
    (r : Option Text) → IsReadable r → decode_reason (encode_reason r) ≡ kept_reason r
decode_reason-encode_reason none h = refl
decode_reason-encode_reason (some []) h = refl
decode_reason-encode_reason (some (c ∷ cs)) h =
    decode_reason-ne-nil (encode_text (c ∷ cs)) (encode_text-ne-nil c cs)
    ∙ ap some (decode_text-encode_text (c ∷ cs) h.0 h.1)

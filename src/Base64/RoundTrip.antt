-- ===== src/Base64/RoundTrip.antt =====
-- src/base64.cc: Decode undoes Encode.
use metadata_agent.Prelude.{
  text_ord, ℕ, ◌+◌, ◌*◌, ◌/◌, ◌%◌, ◌<◌, Text, [], ◌∷◌, ◌≡◌, refl, ◌∙◌, ap, ap₂, arith, All,
}
use metadata_agent.Prelude.Order.{nat_ord}
use metadata_agent.Base64.{encode_from, encode, decode_from, decode}
use metadata_agent.Base64.Digits.{after_three, encode_one, encode_two, encode_three}
use metadata_agent.Base64.Bytes.{decode_two, decode_three, decode_four, known}

abbrev pub IsByte : ℕ → Type 0
IsByte c = c < 256

-- The bytes that the digits give back.
byte_a : (a b : ℕ) → b < 256 → a / 4 * 4 + (a % 4 * 16 + b / 16) / 16 ≡ a
byte_a a b h = omega (arith, h)

byte_b :
    (a b c : ℕ)
    → b < 256
    → c < 256
    → (a % 4 * 16 + b / 16) % 16 * 16 + (b % 16 * 4 + c / 64) / 4 ≡ b
byte_b a b c h k = omega (arith, h, k)

byte_c : (b c : ℕ) → c < 256 → (b % 16 * 4 + c / 64) % 4 * 64 + c % 64 ≡ c
byte_c b c h = omega (arith, h)

-- From any state of the two buffers that has no bits left.
decode-encode_from :
    (source : Text) (val buffer : ℕ)
    → All IsByte source
    → decode_from val 0 (encode_from buffer 0 source) ≡ source
unfolding decode_from encode_from
decode-encode_from [] val buffer h = refl
decode-encode_from (a ∷ []) val buffer (ha, h) =
    ap (decode_from val 0) (encode_one buffer a ha)
    ∙ decode_two val (a / 4) (a % 4 * 16 + 0 / 16) [] (known _ (omega arith))
        (known _ (omega arith)) (omega arith) (omega arith)
    ∙ ap₂ ◌∷◌ (byte_a a 0 (omega arith)) refl
decode-encode_from (a ∷ b ∷ []) val buffer (ha, (hb, h)) =
    ap (decode_from val 0) (encode_two buffer a b ha hb)
    ∙ decode_three val (a / 4) (a % 4 * 16 + b / 16) (b % 16 * 4 + 0 / 64) []
        (known _ (omega arith)) (known _ (omega arith)) (known _ (omega arith)) (omega arith)
        (omega arith) (omega arith)
    ∙ ap₂ ◌∷◌ (byte_a a b hb) (ap₂ ◌∷◌ (byte_b a b 0 hb (omega arith)) refl)
decode-encode_from (a ∷ b ∷ c ∷ rest) val buffer (ha, (hb, (hc, h))) =
    ap (decode_from val 0) (encode_three buffer a b c rest ha hb hc)
    ∙ decode_four val (a / 4) (a % 4 * 16 + b / 16) (b % 16 * 4 + c / 64) (c % 64)
        (encode_from (after_three buffer a b c) 0 rest) (known _ (omega arith))
        (known _ (omega arith)) (known _ (omega arith)) (known _ (omega arith)) (omega arith)
        (omega arith) (omega arith) (omega arith)
    ∙ ap₂ ◌∷◌ (byte_a a b hb) (
        ap₂ ◌∷◌ (byte_b a b c hb hc)
          (ap₂ ◌∷◌ (byte_c b c hc) (decode-encode_from rest _ (after_three buffer a b c) h)))

-- What Encode makes of any bytes, Decode makes these bytes of again, although the buffers of both lose
-- the bits that no longer fit.
pub decode-encode : (source : Text) → All IsByte source → decode (encode source) ≡ source
unfolding decode encode
decode-encode source h = decode-encode_from source 0 0 h

-- ===== src/Tests/Base64.antt =====
-- Base64 at concrete inputs.
use metadata_agent.Prelude.{text_ord, [], ◌∷◌, ◌≡◌, refl, arith, codes}
use metadata_agent.Prelude.Order.{nat_ord}
use metadata_agent.Base64.{encode, decode, emit, encode_from, char_of, char_at, base64url_chars}
use metadata_agent.Base64.RoundTrip.{decode-encode}

-- The padding that others add is not there.
run : encode (codes "any carnal pleas") ≡ codes "YW55IGNhcm5hbCBwbGVhcw"
unfolding encode emit encode_from char_of char_at base64url_chars codes
run = refl

decode-encode_example : decode (encode (255 ∷ 0 ∷ 127 ∷ 250 ∷ [])) ≡ 255 ∷ 0 ∷ 127 ∷ 250 ∷ []
decode-encode_example =
    decode-encode (255 ∷ 0 ∷ 127 ∷ 250 ∷ [])
      (omega arith, (omega arith, (omega arith, (omega arith, tt))))

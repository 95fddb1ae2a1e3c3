-- ===== src/Oauth2/Assertion.antt =====
-- src/oauth2.cc: what the receiver of the assertion reads in it, with the decoder of src/base64.cc.
use metadata_agent.Prelude.{
  text_ord, ℕ, zero, suc, ◌+◌, ◌-◌, ◌/◌, ◌%◌, ◌^◌, leb, ltb, ℤ, Text, Bool, true, false, List, [],
  ◌∷◌, ◌++◌, ◌≡◌, refl, arith, All, All-append, map, append_assoc, not, ◌&&◌, if◌then◌else◌,
}
use metadata_agent.Prelude.Order.{same, nat_ord}
use metadata_agent.Base64.{
  base64url_chars, char_at, char_of, emit, shift_in, encode_from, encode, decode,
}
use metadata_agent.Base64.RoundTrip.{IsByte, decode-encode}
use metadata_agent.Oauth2.{World, jwt_header, claim_set, signed_part, assertion, sign, pkey}

abbrev NoDot : ℕ → Type 0
NoDot b = same b b'.' ≡ false

-- The parts of a text between the dots.
abbrev add_first : ℕ → List Text → List Text
add_first b [] = (b ∷ []) ∷ []
add_first b (part ∷ parts) = (b ∷ part) ∷ parts

unfoldable pub parts : Text → List Text
parts [] = [] ∷ []
parts (b ∷ text) = let later = parts text in if same b b'.' then [] ∷ later else add_first b later

parts-dot : (text rest : Text) → All NoDot text → parts (text ++ (b'.' ∷ rest)) ≡ text ∷ parts rest
unfolding parts same
parts-dot [] rest h = refl
parts-dot (b ∷ text) rest (hb, h) = rw (hb, parts-dot text rest h) refl

parts-last : (text : Text) → All NoDot text → parts text ≡ text ∷ []
unfolding parts
parts-last [] h = refl
parts-last (b ∷ text) (hb, h) = rw (hb, parts-last text h) refl

-- No digit is a dot.
abbrev no_dot : Text → Bool
no_dot [] = true
no_dot (b ∷ text) = not (same b b'.') && no_dot text

char_at-NoDot : (table : Text) (i : ℕ) → no_dot table ≡ true → NoDot (char_at table i)
unfolding char_at same
char_at-NoDot [] i h = refl
char_at-NoDot (c ∷ cs) zero h = ground arith
char_at-NoDot (c ∷ cs) (suc i) h = char_at-NoDot cs i (ground arith)

char_of-NoDot : (i : ℕ) → NoDot (char_of i)
unfolding char_of base64url_chars same
char_of-NoDot i = char_at-NoDot base64url_chars i refl

emit-NoDot : (fuel buffer bits : ℕ) → All NoDot (emit fuel buffer bits).0
unfolding emit
emit-NoDot zero buffer bits = tt
emit-NoDot (suc fuel) buffer bits =
    more (leb 6 bits) _ _ (char_of-NoDot (buffer / 2 ^ (bits - 6) % 64))
      (emit-NoDot fuel buffer (bits - 6))
  where
    more :
        (b : Bool) (digit : ℕ) (rest : Text × ℕ)
        → NoDot digit
        → All NoDot rest.0
        → All NoDot (if◌then◌else◌ {A = Text × ℕ} b (digit ∷ rest.0, rest.1) ([], bits)).0
    more true digit rest h k = (h, k)
    more false digit rest h k = tt

encode_from-NoDot : (buffer bits : ℕ) (text : Text) → All NoDot (encode_from buffer bits text)
unfolding encode_from
encode_from-NoDot buffer bits [] =
    last (ltb 0 bits) _ (char_of-NoDot (shift_in buffer 256 0 / 2 ^ (bits + 8 - 6) % 64))
  where
    last : (b : Bool) (digit : ℕ) → NoDot digit → All NoDot (if b then digit ∷ [] else [])
    last true digit h = (h, tt)
    last false digit h = tt
encode_from-NoDot buffer bits (c ∷ cs) =
    All-append NoDot (emit (bits + 8) (shift_in buffer 256 c) (bits + 8)).0 _
      (emit-NoDot (bits + 8) (shift_in buffer 256 c) (bits + 8))
      (encode_from-NoDot (shift_in buffer 256 c)
        (emit (bits + 8) (shift_in buffer 256 c) (bits + 8)).1 cs)

encode-NoDot : (text : Text) → All NoDot (encode text)
unfolding encode
encode-NoDot text = encode_from-NoDot 0 0 text

decode-parts :
    (a b c : Text)
    → All IsByte a
    → All IsByte b
    → All IsByte c
    → map decode (parts (encode a ++ (b'.' ∷ encode b) ++ (b'.' ∷ encode c))) ≡ a ∷ b ∷ c ∷ []
decode-parts a b c ha hb hc =
    rw
      (
        append_assoc (encode a) (b'.' ∷ encode b) (b'.' ∷ encode c),
        parts-dot (encode a) (encode b ++ (b'.' ∷ encode c)) (encode-NoDot a),
        parts-dot (encode b) (encode c) (encode-NoDot b),
        parts-last (encode c) (encode-NoDot c),
        decode-encode a ha,
        decode-encode b hb,
        decode-encode c hc,
      )
      refl

module _ {Num : Type 0} (w : World Num) where
  -- Whoever takes the assertion apart at the dots and decodes its parts reads the header, the claims made
  -- at that time for that account, and the signature of what stands before the last dot, if all three
  -- are texts of bytes.
  pub decode-parts-assertion :
      (private_key_pem email : Text) (at : ℤ)
      → All IsByte (w.to_string (jwt_header w))
      → All IsByte (w.to_string (claim_set w email at))
      → All IsByte (sign w (signed_part w email at) (pkey w private_key_pem))
      → map decode (parts (assertion w private_key_pem email at))
        ≡ w.to_string (jwt_header w)
          ∷ w.to_string (claim_set w email at)
          ∷ sign w (signed_part w email at) (pkey w private_key_pem)
          ∷ []
  unfolding assertion signed_part
  decode-parts-assertion private_key_pem email at hh hc hs =
      decode-parts (w.to_string (jwt_header w)) (w.to_string (claim_set w email at))
        (sign w (signed_part w email at) (pkey w private_key_pem)) hh hc hs

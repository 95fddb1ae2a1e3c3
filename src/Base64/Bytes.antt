-- ===== src/Base64/Bytes.antt =====
-- src/base64.cc: the bytes that Decode makes of up to four digits.
use metadata_agent.Prelude.{
  text_ord, ℕ, zero, suc, ◌+◌, ◌-◌, ◌*◌, ◌/◌, ◌%◌, ◌^◌, ◌<◌, leb, Text, Bool, true, false, ◌&&◌,
  ◌==◌, Option, none, some, ◌∷◌, if◌then◌else◌, ◌≡◌, refl, sym, ◌∙◌, ap, ap₂, subst, arith,
}
use native.Mathlib.Decide.{dec_lt}
use metadata_agent.Prelude.Order.{same, nat_ord}
use metadata_agent.Base64.{
  base64url_chars, char_at, char_of, index_in, digit_of, shift_in, decode_from,
}

-- A digit of which Decode knows the six bits.
abbrev pub IsDigit : ℕ → Type 0
IsDigit d = digit_of (char_of d) ≡ some d

decode_digit :
    (val bits d : ℕ) (cs : Text)
    → IsDigit d
    → decode_from val bits (char_of d ∷ cs) ≡ (
        if leb 8 (bits + 6)
        then shift_in val 64 d / 2 ^ (bits + 6 - 8) % 256
          ∷ decode_from (shift_in val 64 d) (if leb 8 (bits + 6) then bits + 6 - 8 else bits + 6) cs
        else decode_from
            (shift_in val 64 d)
            (if leb 8 (bits + 6) then bits + 6 - 8 else bits + 6)
            cs)
unfolding decode_from
decode_digit val bits d cs h = rw (decode_from, h) refl

-- The eight bits of each byte, whatever the buffer held before.
first_byte :
    (x p q : ℕ)
    → p < 64
    → q < 64
    → ((x * 64 + p) % 2 ^ 32 * 64 + q) % 2 ^ 32 / 16 % 256 ≡ p * 4 + q / 16
first_byte x p q h k = omega (arith, h, k)

second_byte :
    (x q r : ℕ)
    → q < 64
    → r < 64
    → ((x * 64 + q) % 2 ^ 32 * 64 + r) % 2 ^ 32 / 4 % 256 ≡ q % 16 * 16 + r / 4
second_byte x q r h k = omega (arith, h, k)

third_byte :
    (x r s : ℕ)
    → r < 64
    → s < 64
    → ((x * 64 + r) % 2 ^ 32 * 64 + s) % 2 ^ 32 / 1 % 256 ≡ r % 4 * 64 + s
third_byte x r s h k = omega (arith, h, k)

abbrev pub after_two : ℕ → ℕ → ℕ → ℕ
after_two val p q = shift_in (shift_in val 64 p) 64 q

pub decode_two :
    (val p q : ℕ) (rest : Text)
    → IsDigit p
    → IsDigit q
    → p < 64
    → q < 64
    → decode_from val 0 (char_of p ∷ char_of q ∷ rest)
      ≡ (p * 4 + q / 16) ∷ decode_from (after_two val p q) 4 rest
decode_two val p q rest dp dq hp hq =
    decode_digit val 0 p (char_of q ∷ rest) dp
    ∙ decode_digit (shift_in val 64 p) 6 q rest dq
    ∙ ap₂ ◌∷◌ (first_byte val p q hp hq) refl

pub decode_three :
    (val p q r : ℕ) (rest : Text)
    → IsDigit p
    → IsDigit q
    → IsDigit r
    → p < 64
    → q < 64
    → r < 64
    → decode_from val 0 (char_of p ∷ char_of q ∷ char_of r ∷ rest)
      ≡ (p * 4 + q / 16)
        ∷ (q % 16 * 16 + r / 4)
        ∷ decode_from (shift_in (after_two val p q) 64 r) 2 rest
decode_three val p q r rest dp dq dr hp hq hr =
    decode_two val p q (char_of r ∷ rest) dp dq hp hq
    ∙ ap (λ cs. (p * 4 + q / 16) ∷ cs)
        (decode_digit (after_two val p q) 4 r rest dr
          ∙ ap₂ ◌∷◌ (second_byte (shift_in val 64 p) q r hq hr) refl)

pub decode_four :
    (val p q r s : ℕ) (rest : Text)
    → IsDigit p
    → IsDigit q
    → IsDigit r
    → IsDigit s
    → p < 64
    → q < 64
    → r < 64
    → s < 64
    → decode_from val 0 (char_of p ∷ char_of q ∷ char_of r ∷ char_of s ∷ rest)
      ≡ (p * 4 + q / 16)
        ∷ (q % 16 * 16 + r / 4)
        ∷ (r % 4 * 64 + s)
        ∷ decode_from (shift_in (shift_in (after_two val p q) 64 r) 64 s) 0 rest
decode_four val p q r s rest dp dq dr ds hp hq hr hs =
    decode_three val p q r (char_of s ∷ rest) dp dq dr hp hq hr
    ∙ ap (λ cs. (p * 4 + q / 16) ∷ (q % 16 * 16 + r / 4) ∷ cs)
        (decode_digit (shift_in (after_two val p q) 64 r) 2 s rest ds
          ∙ ap₂ ◌∷◌ (third_byte (shift_in (shift_in val 64 p) 64 q) r s hr hs) refl)

-- The table has no byte twice.
abbrev is_some_of : Option ℕ → ℕ → Bool
is_some_of none d = false
is_some_of (some i) d = i == d

eq_of_is_some_of : (o : Option ℕ) (d : ℕ) → is_some_of o d ≡ true → o ≡ some d
eq_of_is_some_of none d h = absurd (ground arith)
eq_of_is_some_of (some i) d h = ground (arith, h)

unfoldable are_digits : ℕ → Bool
are_digits zero = true
are_digits (suc n) = is_some_of (digit_of (char_of n)) n && are_digits n

IsDigit-below : (n d : ℕ) → are_digits n ≡ true → d < n → IsDigit d
unfolding are_digits
IsDigit-below zero d h k = absurd (omega arith)
IsDigit-below (suc n) d h k = elim (dec_lt d n) [
  | yes p ↦ IsDigit-below n d (ground (arith, h)) p
  | no p ↦
      let e : d ≡ n = omega arith in
      subst IsDigit (sym e) (eq_of_is_some_of (digit_of (char_of n)) n (ground (arith, h)))
]

all_digits : are_digits 64 ≡ true
unfolding are_digits digit_of char_of char_at index_in base64url_chars same
all_digits = refl

pub known : (d : ℕ) → d < 64 → IsDigit d
known d h = IsDigit-below 64 d all_digits h

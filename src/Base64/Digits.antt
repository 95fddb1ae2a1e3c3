-- ===== src/Base64/Digits.antt =====
-- src/base64.cc: the digits that Encode makes of three bytes, or of the last ones.
use metadata_agent.Prelude.{
  text_ord, ℕ, ◌+◌, ◌*◌, ◌/◌, ◌%◌, ◌^◌, ◌<◌, Text, [], ◌∷◌, ◌≡◌, refl, ap, ap₂, arith,
}
use metadata_agent.Prelude.Order.{nat_ord}
use metadata_agent.Base64.{char_of, emit, shift_in, encode_from}

-- The six bits of each digit, whatever the buffer held before.
first_digit : (x a : ℕ) → a < 256 → (x * 256 + a) % 2 ^ 32 / 4 % 64 ≡ a / 4
first_digit x a h = omega (arith, h)

second_digit :
    (x a b : ℕ)
    → a < 256
    → b < 256
    → ((x * 256 + a) % 2 ^ 32 * 256 + b) % 2 ^ 32 / 16 % 64 ≡ a % 4 * 16 + b / 16
second_digit x a b h k = omega (arith, h, k)

third_digit :
    (x b c : ℕ)
    → b < 256
    → c < 256
    → ((x * 256 + b) % 2 ^ 32 * 256 + c) % 2 ^ 32 / 64 % 64 ≡ b % 16 * 4 + c / 64
third_digit x b c h k = omega (arith, h, k)

fourth_digit : (x c : ℕ) → (x * 256 + c) % 2 ^ 32 / 1 % 64 ≡ c % 64
fourth_digit x c = omega arith

abbrev pub after_three : ℕ → ℕ → ℕ → ℕ → ℕ
after_three buffer a b c = shift_in (shift_in (shift_in buffer 256 a) 256 b) 256 c

pub encode_three :
    (buffer a b c : ℕ) (rest : Text)
    → a < 256
    → b < 256
    → c < 256
    → encode_from buffer 0 (a ∷ b ∷ c ∷ rest)
      ≡ char_of (a / 4)
        ∷ char_of (a % 4 * 16 + b / 16)
        ∷ char_of (b % 16 * 4 + c / 64)
        ∷ char_of (c % 64)
        ∷ encode_from (after_three buffer a b c) 0 rest
unfolding encode_from emit
encode_three buffer a b c rest ha hb hc = ap₂ ◌∷◌ (ap char_of (first_digit buffer a ha)) (
    ap₂ ◌∷◌ (ap char_of (second_digit buffer a b ha hb)) (
      ap₂ ◌∷◌ (ap char_of (third_digit (shift_in buffer 256 a) b c hb hc))
        (ap₂ ◌∷◌ (ap char_of (fourth_digit (shift_in (shift_in buffer 256 a) 256 b) c)) refl)))

-- The ends of the sequence: the bits that are missing are zeros.
pub encode_one :
    (buffer a : ℕ)
    → a < 256
    → encode_from buffer 0 (a ∷ []) ≡ char_of (a / 4) ∷ char_of (a % 4 * 16 + 0 / 16) ∷ []
unfolding encode_from emit
encode_one buffer a ha =
    ap₂ ◌∷◌ (ap char_of (first_digit buffer a ha))
      (ap₂ ◌∷◌ (ap char_of (second_digit buffer a 0 ha (omega arith))) refl)

pub encode_two :
    (buffer a b : ℕ)
    → a < 256
    → b < 256
    → encode_from buffer 0 (a ∷ b ∷ [])
      ≡ char_of (a / 4) ∷ char_of (a % 4 * 16 + b / 16) ∷ char_of (b % 16 * 4 + 0 / 64) ∷ []
unfolding encode_from emit
encode_two buffer a b ha hb = ap₂ ◌∷◌ (ap char_of (first_digit buffer a ha)) (
    ap₂ ◌∷◌ (ap char_of (second_digit buffer a b ha hb))
      (ap₂ ◌∷◌ (ap char_of (third_digit (shift_in buffer 256 a) b 0 hb (omega arith))) refl))

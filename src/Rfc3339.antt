-- ===== src/Rfc3339.antt =====
-- src/time.cc: time::rfc3339::ToString. The date and time of a number of seconds, which gmtime and
-- strftime give, is a parameter.
pub mod Read
pub mod Rounding
pub mod RoundTrip
use native.Mathlib.Nat.{pow-suc, mul_comm}
use metadata_agent.Prelude.{
  ℕ, zero, suc, ◌+◌, ◌-◌, ◌*◌, ◌/◌, ◌%◌, ◌^◌, ◌≤◌, ◌<◌, ℤ, pos, negsuc, sub_ℕ, Text, [], ◌∷◌, ◌++◌,
  ◌≡◌, refl, arith, ap, ◌∙◌, if◌then◌else◌, length, length-append, ltb, leb,
}

-- The decimal digits of a number, as the stream prints it; the fuel is the number of digits at most.
unfoldable pub decimal_from : ℕ → ℕ → Text
decimal_from zero n = []
decimal_from (suc fuel) n =
    let higher = decimal_from fuel (n / 10) in
    if ltb n 10 then (48 + n) ∷ [] else higher ++ (48 + n % 10) ∷ []

unfoldable pub decimal : ℕ → Text
unfolding decimal_from
decimal n = decimal_from (suc n) n

-- std::setw(width) with std::setfill('0').
unfoldable pub zeros : ℕ → Text
zeros zero = []
zeros (suc n) = 48 ∷ zeros n

unfoldable pub pad : ℕ → Text → Text
unfolding zeros
pad width t = zeros (width - length t) ++ t

-- The truncations to seconds, and what is left in nanoseconds.
unfoldable pub whole_seconds : ℤ → ℤ
whole_seconds (pos n) = pos (n / 10 ^ 9)
whole_seconds (negsuc n) = sub_ℕ 0 (suc n / 10 ^ 9)

unfoldable pub print_nanoseconds : ℤ → Text
unfolding decimal
print_nanoseconds (pos n) = decimal (n % 10 ^ 9)
print_nanoseconds (negsuc n) =
    if leb 1 (suc n % 10 ^ 9) then 45 ∷ decimal (suc n % 10 ^ 9) else decimal 0

module _ (date_time : ℤ → Text) where
  -- ToString.
  unfoldable pub to_string : ℤ → Text
  unfolding whole_seconds print_nanoseconds pad
  to_string t = date_time (whole_seconds t) ++ (46 ∷ (pad 9 (print_nanoseconds t) ++ 90 ∷ []))

-- The number that decimal digits stand for.
abbrev pub read_digits : ℕ → Text → ℕ
read_digits acc [] = acc
read_digits acc (c ∷ cs) = read_digits (acc * 10 + (c - 48)) cs

read_digits-append :
    (acc : ℕ) (xs ys : Text) → read_digits acc (xs ++ ys) ≡ read_digits (read_digits acc xs) ys
read_digits-append acc [] ys = refl
read_digits-append acc (x ∷ xs) ys = read_digits-append (acc * 10 + (x - 48)) xs ys

read_digits-zeros : (n : ℕ) → read_digits 0 (zeros n) ≡ 0
unfolding zeros
read_digits-zeros zero = refl
read_digits-zeros (suc n) = read_digits-zeros n

read_digits-decimal_from : (fuel n : ℕ) → n < fuel → read_digits 0 (decimal_from fuel n) ≡ n
unfolding decimal_from
read_digits-decimal_from zero n h = absurd (omega arith)
read_digits-decimal_from (suc fuel) n h = ground (
  arith,
  read_digits-decimal_from fuel (n / 10),
  read_digits-append 0 (decimal_from fuel (n / 10)) ((48 + n % 10) ∷ []),
)

pub ten_pow : (k : ℕ) → 10 ^ suc k ≡ 10 * 10 ^ k
ten_pow k = pow-suc 10 k ∙ mul_comm (10 ^ k) 10

length-zeros : (n : ℕ) → length (zeros n) ≡ n
unfolding zeros
length-zeros zero = refl
length-zeros (suc n) = ap suc (length-zeros n)

length-decimal_from : (k fuel n : ℕ) → n < 10 ^ suc k → length (decimal_from fuel n) ≤ suc k
unfolding decimal_from
length-decimal_from k zero n h = omega arith
length-decimal_from zero (suc fuel) n h = ground (arith, ten_pow zero)
length-decimal_from (suc k) (suc fuel) n h = ground (
  arith,
  length-decimal_from k fuel (n / 10),
  ten_pow (suc k),
  length-append (decimal_from fuel (n / 10)) ((48 + n % 10) ∷ []),
)

-- The fraction that follows the point: nine digits which stand for the nanoseconds, for a time that is
-- not before the epoch.
abbrev pub fraction : ℤ → Text
fraction t = pad 9 (print_nanoseconds t)

pub fraction_lem :
    (n : ℕ) → (length (fraction (pos n)) ≡ 9) × (read_digits 0 (fraction (pos n)) ≡ n % 10 ^ 9)
unfolding pad print_nanoseconds
fraction_lem n =
    let ns : ℕ = n % 10 ^ 9 in
    let t : Text = decimal ns in
    (
      omega (
        arith,
        length-append (zeros (9 - length t)) t,
        length-zeros (9 - length t),
        length-decimal_from 8 (suc ns) ns,
      ),
      read_digits-append 0 (zeros (9 - length t)) t
          ∙ ap (λ a. read_digits a t) (read_digits-zeros (9 - length t))
          ∙ read_digits-decimal_from (suc ns) ns (omega arith),
    )

-- A time that is not before the epoch is printed as the date and time of its whole seconds, a point,
-- exactly nine digits whose number is its nanoseconds, and `Z`.
pub to_string_form :
    (date_time : ℤ → Text) (n : ℕ)
    → (digits : Text) × (to_string date_time (pos n)
        ≡ date_time (pos (n / 10 ^ 9)) ++ (46 ∷ (digits ++ 90 ∷ [])))
      × (length digits ≡ 9)
      × (read_digits 0 digits ≡ n % 10 ^ 9)
unfolding to_string
to_string_form date_time n = (fraction (pos n), refl, (fraction_lem n).0, (fraction_lem n).1)

-- ===== src/Rfc3339/RoundTrip.antt =====
-- src/time.cc: FromString reads what ToString printed.
use metadata_agent.Prelude.{
  text_ord, ℕ, suc, ◌+◌, ◌-◌, ◌*◌, ◌/◌, ◌^◌, ◌%◌, ◌==◌, ℤ, pos, ◌+ℤ◌, ◌-ℤ◌, ◌*ℤ◌, int_laws, Text,
  true, false, some, [], ◌∷◌, ◌++◌, ◌≡◌, refl, arith, ap, ◌∙◌, sym, length, drop, append_assoc,
}
use metadata_agent.Rfc3339.{whole_seconds, to_string, fraction, fraction_lem, read_digits, ten_pow}
use metadata_agent.Rfc3339.Read.{
  CLibrary, byte_at, is_digit, utc_offset, nanoseconds, zone_at, read_time, from_string,
}
use metadata_agent.Rfc3339.Rounding.{Within, RoundsDoubles, nanoseconds_lem}

suc_add : (m n : ℕ) → suc m + n ≡ suc (m + n)
suc_add m n = omega arith

byte_at-append : (xs ys : Text) (k : ℕ) → byte_at (length xs + k) (xs ++ ys) ≡ byte_at k ys
unfolding byte_at
byte_at-append [] ys k = ap (λ i. byte_at i ys) (omega arith)
byte_at-append (x ∷ xs) ys k =
    ap (λ i. byte_at i (x ∷ (xs ++ ys))) (suc_add (length xs) k) ∙ byte_at-append xs ys k

drop-append : (xs ys : Text) (k : ℕ) → drop (length xs + k) (xs ++ ys) ≡ drop k ys
drop-append [] ys k = ap (λ i. drop i ys) (omega arith)
drop-append (x ∷ xs) ys k =
    ap (λ i. drop i (x ∷ (xs ++ ys))) (suc_add (length xs) k) ∙ drop-append xs ys k

byte_at_end : (text : Text) → byte_at (length text) text ≡ 0
unfolding byte_at
byte_at_end [] = refl
byte_at_end (b ∷ text) = byte_at_end text

same_number : (a b : ℕ) → a ≡ b → (a == b) ≡ true
same_number a b h = ground arith

whole_and_fraction : (secs ns : ℕ) → pos secs *ℤ pos (10 ^ 9) +ℤ pos ns ≡ pos (secs * 10 ^ 9 + ns)
unfolding ◌+ℤ◌ ◌*ℤ◌
whole_and_fraction secs ns = ground arith

not_zero : (digits : Text) → length digits ≡ 9 → (length digits == 0) ≡ false
not_zero digits h = ground arith

three_more : (digits : Text) → length digits ≡ 9 → 12 ≡ length digits + 3
three_more digits h = omega arith

module _ {Tm Double : Type 0} (c : CLibrary Tm Double) (front digits : Text) (x y : ℕ) where
  -- The seconds, the fraction and the zone.
  abbrev seconds_text : Text
  seconds_text = x ∷ y ∷ 46 ∷ (digits ++ (90 ∷ []))

  byte_of :
      (i k : ℕ) → i ≡ length front + k → byte_at i (front ++ seconds_text) ≡ byte_at k seconds_text
  byte_of i k e =
      ap (λ i. byte_at i (front ++ seconds_text)) e ∙ byte_at-append front seconds_text k

  rest_of : (i k : ℕ) → i ≡ length front + k → drop i (front ++ seconds_text) ≡ drop k seconds_text
  rest_of i k e = ap (λ i. drop i (front ++ seconds_text)) e ∙ drop-append front seconds_text k

  zone_of_printed :
      c.strtol_taken (digits ++ (90 ∷ [])) ≡ length digits
      → (length digits == 0) ≡ false
      → zone_at c (front ++ seconds_text) (length front + 2)
        ≡ some (suc (length front + 2) + length digits)
  unfolding zone_at byte_at
  zone_of_printed taken some_digits =
      rw
        (
          byte_of (length front + 2) 2 refl,
          rest_of (suc (length front + 2)) 3 (omega arith),
          taken,
          some_digits,
        )
        refl

  zone_byte : byte_at (suc (length front + 2) + length digits) (front ++ seconds_text) ≡ 90
  unfolding byte_at
  zone_byte =
      byte_of (suc (length front + 2) + length digits) (suc (suc (suc (length digits + 0))))
        (omega arith)
      ∙ byte_at-append digits (90 ∷ []) 0

  end_byte : byte_at (suc (suc (length front + 2) + length digits)) (front ++ seconds_text) ≡ 0
  unfolding byte_at
  end_byte =
      byte_of (suc (suc (length front + 2) + length digits)) (suc (suc (suc (length digits + 1))))
        (omega arith)
      ∙ byte_at-append digits (90 ∷ []) 1

  read_printed :
      (tm : Tm) (secs ns : ℕ)
      → (c.strtod seconds_text).1 ≡ length digits + 3
      → nanoseconds c (c.strtod seconds_text).0 tm ≡ pos ns
      → c.mktime (c.without_dst tm) +ℤ utc_offset c ≡ pos secs
      → read_time c
          (front ++ seconds_text)
          tm
          (length front + 2)
          (suc (length front + 2) + length digits)
        ≡ pos (secs * 10 ^ 9 + ns)
  unfolding read_time
  read_printed tm secs ns taken rounded made =
      rw
        (
          read_time,
          zone_byte,
          end_byte,
          rest_of (length front + 2 - 2) 0 (omega arith),
          taken,
          same_number (length front + 2 - 2 + (length digits + 3))
              (suc (length front + 2) + length digits) (omega arith),
          rounded,
          made,
        )
        (whole_and_fraction secs ns)

  from_string_printed :
      (tm : Tm) (secs ns : ℕ)
      → c.strptime (front ++ seconds_text) ≡ some (tm, length front + 2)
      → is_digit x ≡ true
      → c.strtol_taken (digits ++ (90 ∷ [])) ≡ length digits
      → (length digits == 0) ≡ false
      → (c.strtod seconds_text).1 ≡ length digits + 3
      → nanoseconds c (c.strtod seconds_text).0 tm ≡ pos ns
      → c.mktime (c.without_dst tm) +ℤ utc_offset c ≡ pos secs
      → from_string c (front ++ seconds_text) ≡ pos (secs * 10 ^ 9 + ns)
  unfolding from_string byte_at
  from_string_printed tm secs ns found digit taken some_digits read rounded made =
      rw
        (
          from_string,
          found,
          byte_of (length front + 2 - 2) 0 (omega arith),
          digit,
          zone_of_printed taken some_digits,
        )
        (read_printed tm secs ns read rounded made)

-- The digits that follow other digits.
read_digits-ten_pow :
    (p acc d rest : ℕ) → (acc * 10 + d) * p + rest ≡ acc * (10 * p) + (d * p + rest)
read_digits-ten_pow p acc d rest = grind arith

read_digits-acc :
    (acc : ℕ) (ds : Text) → read_digits acc ds ≡ acc * 10 ^ length ds + read_digits 0 ds
read_digits-acc acc [] = omega arith
read_digits-acc acc (c ∷ cs) =
    read_digits-acc (acc * 10 + (c - 48)) cs
    ∙ read_digits-ten_pow (10 ^ length cs) acc (c - 48) (read_digits 0 cs)
    ∙ ap (λ (t : ℕ). acc * (10 * 10 ^ length cs) + t)
        (sym (read_digits-acc (c - 48) cs) ∙ ap (λ (a : ℕ). read_digits a cs) (omega arith))
    ∙ ap (λ (t : ℕ). acc * t + read_digits 0 (c ∷ cs)) (sym (ten_pow (length cs)))

nine_more :
    (acc ns : ℕ) (ds : Text)
    → length ds ≡ 9
    → read_digits 0 ds ≡ ns
    → read_digits acc ds ≡ acc * 10 ^ 9 + ns
nine_more acc ns ds nine e =
    read_digits-acc acc ds
    ∙ ap (λ (k : ℕ). acc * 10 ^ k + read_digits 0 ds) nine
    ∙ ap (λ (t : ℕ). acc * 10 ^ 9 + t) e

module _ {Tm Double : Type 0} (c : CLibrary Tm Double) (zone : ℤ) where
  -- The local time is `zone` ahead of UTC, when daylight saving is left aside.
  abbrev pub IsZone : Type 0
  IsZone = (t : ℤ) → c.mktime (c.without_dst (c.gmtime t)) ≡ t -ℤ zone

  zone_cancels : (t start : ℤ) → (t -ℤ zone) +ℤ (start -ℤ (start -ℤ zone)) ≡ t
  zone_cancels t start = omega int_laws

  utc_of_local :
      IsZone
      → (tm : Tm) (t : ℤ) → c.mktime (c.without_dst tm) ≡ c.mktime (c.without_dst (c.gmtime t))
      → c.mktime (c.without_dst tm) +ℤ utc_offset c ≡ t
  unfolding utc_offset
  utc_of_local local tm t made = rw (made, local t, local c.start) (zone_cancels t c.start)

-- A time that is not before the epoch is read again from what was printed of it, to the nanosecond, if the C
-- library does what is documented of it: mktime takes local time, a fixed zone ahead of UTC without daylight
-- saving; the operations of the doubles round by at most half a unit in the last place; and from
-- the printed text, whose date and time end in two digits, strptime takes the date and time, with the fields
-- that gmtime gave for it as far as mktime reads them and with these two digits in tm_sec; strtol takes the
-- nine digits behind the point; and strtod takes these with the two before it, and gives a double
-- within 2^-48 of the decimal number that the eleven stand for.
pub from_string-to_string :
    {Tm Double : Type 0} (c : CLibrary Tm Double) (zone : ℤ) (value : Double → ℤ) (u : ℕ)
    (date_time : ℤ → Text) (n : ℕ) (tm : Tm) (front : Text) (x y : ℕ)
    → IsZone c zone
    → RoundsDoubles c value u
    → date_time (pos (n / 10 ^ 9)) ≡ front ++ (x ∷ y ∷ [])
    → is_digit x ≡ true
    → c.strptime (to_string date_time (pos n)) ≡ some (tm, length front + 2)
    → c.mktime (c.without_dst tm) ≡ c.mktime (c.without_dst (c.gmtime (pos (n / 10 ^ 9))))
    → c.tm_sec tm ≡ pos (read_digits 0 (x ∷ y ∷ []))
    → c.strtol_taken (fraction (pos n) ++ (90 ∷ [])) ≡ 9
    → (c.strtod (seconds_text c front (fraction (pos n)) x y)).1 ≡ 12
    → Within
        (2 ^ 48)
        (10 ^ 9)
        (value (c.strtod (seconds_text c front (fraction (pos n)) x y)).0)
        u
        (pos (read_digits 0 (x ∷ y ∷ fraction (pos n))))
        (10 ^ 9 * u)
    → from_string c (to_string date_time (pos n)) ≡ pos n
unfolding to_string whole_seconds
from_string-to_string c zone value u date_time n tm front x y local rounds printed digit found made
      field taken read near =
    let digits = fraction (pos n) in
    let (nine, number) = fraction_lem n in
    let text =
      ap (λ d. d ++ (46 ∷ (digits ++ (90 ∷ [])))) printed ∙ append_assoc front (x ∷ y ∷ []) _ in
    let seconds = (c.strtod (seconds_text c front digits x y)).0 in
    let sec = read_digits 0 (x ∷ y ∷ []) in
    ap (from_string c) text
    ∙ from_string_printed c front digits x y tm (n / 10 ^ 9) (n % 10 ^ 9)
        (ap c.strptime (sym text) ∙ found) digit (taken ∙ sym nine) (not_zero digits nine)
        (read ∙ three_more digits nine)
        (nanoseconds_lem c value u rounds tm seconds sec (n % 10 ^ 9) (read_digits sec digits) field
          (nine_more sec (n % 10 ^ 9) digits nine number) (omega arith) near)
        (utc_of_local c zone local tm (pos (n / 10 ^ 9)) made)
    ∙ ap pos (omega arith)

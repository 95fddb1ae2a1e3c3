-- ===== src/Tests/Format.antt =====
-- Substitute and the time stamps at concrete texts.
use metadata_agent.Prelude.{
  text_ord, ℕ, suc, ◌+◌, ◌*◌, ◌/◌, ◌^◌, ℤ, pos, negsuc, sub_ℕ, ◌-ℤ◌, ◌*ℤ◌, arith, ap, some, Text,
  [], ◌∷◌, ◌≡◌, refl, codes, starts_with, position,
}
use metadata_agent.Prelude.Order.{same, list_lt}
use metadata_agent.Prelude.Map.{Map, find}
use metadata_agent.Rfc3339.{pad, print_nanoseconds, to_string}
use metadata_agent.Rfc3339.Read.{CLibrary, from_string}
use metadata_agent.Rfc3339.Rounding.{Within, RoundsDoubles}
use metadata_agent.Rfc3339.RoundTrip.{from_string-to_string}
use metadata_agent.Format.{substituted, substitute}
use metadata_agent.Format.Pieces.{Piece, IsPlain, format_of, substitute-format_of}

abbrev params : Map Text Text
params = (codes "code", codes "{{x}}") ∷ []

abbrev piece : Piece
piece = record { literal = codes "status "; param = codes "code" }

piece-IsPlain : IsPlain piece
unfolding codes starts_with position same
piece-IsPlain = record { literal_plain = refl; param_plain = refl }

substitute-format_of_example :
    substitute params (format_of (piece ∷ []) (codes "!")) ≡ substituted (codes "status {{x}}!")
unfolding codes starts_with position same find list_lt
substitute-format_of_example =
    substitute-format_of params (piece ∷ []) (codes "!") (codes "status {{x}}!") (piece-IsPlain, tt)
      refl refl

-- The integer nearest to a number of units of 10^-10.
nearest : ℤ → ℤ
nearest (pos n) = pos ((n + 5 * 10 ^ 9) / 10 ^ 10)
nearest (negsuc n) = sub_ℕ 0 ((suc n + 5 * 10 ^ 9) / 10 ^ 10)

-- A second and five nanoseconds after the epoch.
abbrev date_time : ℤ → Text
date_time secs = codes "1970-01-01T00:00:01"

-- Doubles in units of 10^-10, an hour ahead of UTC, with times in seconds as their own fields.
abbrev c_library : CLibrary ℤ ℤ
c_library = record {
  strptime = λ text. some (pos 1, 19);
  strtol_taken = λ text. 9;
  strtod = λ text. (pos 10000000050, 12);
  minus = λ d n. d -ℤ pos (10 ^ 10) *ℤ n;
  times = λ d n. d *ℤ n;
  lround = nearest;
  tm_sec = λ tm. tm;
  without_dst = λ tm. tm;
  start = pos 0;
  gmtime = λ t. t;
  mktime = λ tm. tm -ℤ pos 3600;
}

near_self : (k : ℕ) (a b : ℤ) (bound : ℕ) → a ≡ b → Within k 1 a 1 b bound
near_self k a b bound e = rw e (omega arith, omega arith)

near_product : (k : ℕ) (d : ℤ) → Within k 1 (d *ℤ pos (10 ^ 10)) (10 ^ 10) d (10 ^ 10)
unfolding ◌*ℤ◌
near_product k (pos n) = ground arith
near_product k (negsuc n) = ground arith

near_nearest : (d : ℤ) → Within 2 (10 ^ 10) (nearest d) 1 d (10 ^ 10)
unfolding nearest
near_nearest (pos n) = ground arith
near_nearest (negsuc n) = ground arith

difference : (d : ℤ) (n : ℕ) → d -ℤ pos (10 ^ 10) *ℤ pos n ≡ d -ℤ pos (10 ^ 10 * n)
unfolding ◌*ℤ◌
difference d n = ap (λ (m : ℤ). d -ℤ m) (ground arith)

rounds : RoundsDoubles c_library (λ d. d) (10 ^ 10)
rounds = record {
  unit = omega arith;
  minus_near = λ d n h.
      near_self (2 ^ 48) (d -ℤ pos (10 ^ 10) *ℤ pos n) (d -ℤ pos (10 ^ 10 * n)) (10 ^ 10)
        (difference d n);
  times_near = λ d h. near_product (2 ^ 20) d;
  lround_near = λ d h. near_nearest d;
}

from_string-to_string_example :
    from_string c_library (to_string date_time (pos 1000000005)) ≡ pos 1000000005
unfolding codes pad print_nanoseconds
from_string-to_string_example =
    from_string-to_string c_library (pos 3600) (λ d. d) (10 ^ 10) date_time 1000000005 (pos 1)
      (codes "1970-01-01T00:00:") 48 49 (λ t. refl) rounds refl refl refl refl refl refl refl
      (omega arith, omega arith)

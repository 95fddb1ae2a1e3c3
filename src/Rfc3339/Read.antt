-- ===== src/Rfc3339/Read.antt =====
-- src/time.cc: time::rfc3339::FromString. The C library is a parameter: what strptime takes and finds, how
-- many bytes strtol takes, what strtod takes and reads, the operations of the doubles, std::lround, the time at
-- the start of the program, gmtime and mktime. A pointer into the text is the index of its byte; the
-- byte behind the text is its end, 0.
use metadata_agent.Prelude.{
  text_ord, ℕ, zero, suc, ◌+◌, ◌-◌, ◌/◌, ◌^◌, leb, ◌==◌, ℤ, pos, negsuc, sub_ℕ, ◌+ℤ◌, ◌-ℤ◌, ◌*ℤ◌,
  Text, Bool, not, ◌&&◌, ◌||◌, Option, none, some, [], ◌∷◌, if◌then◌else◌, drop,
}

-- `minus` and `times` are the operations of a double and a number that is converted to one, `tm_sec` and
-- `without_dst` the field tm_sec and the setting of tm_isdst to 0.
pub record CLibrary (Tm Double : Type 0) : Type 0 where
  pub strptime : Text → Option (Tm × ℕ)
  pub strtol_taken : Text → ℕ
  pub strtod : Text → Double × ℕ
  pub minus : Double → ℤ → Double
  pub times : Double → ℤ → Double
  pub lround : Double → ℤ
  pub tm_sec : Tm → ℤ
  pub without_dst : Tm → Tm
  pub start : ℤ
  pub gmtime : ℤ → Tm
  pub mktime : Tm → ℤ

unfoldable pub byte_at : ℕ → Text → ℕ
byte_at i [] = 0
byte_at zero (b ∷ text) = b
byte_at (suc i) (b ∷ text) = byte_at i text

-- std::isdigit.
abbrev pub is_digit : ℕ → Bool
is_digit b = leb 48 b && leb b 57

-- A long divided by 10, towards 0.
unfoldable pub tenth : ℤ → ℤ
tenth (pos n) = pos (n / 10)
tenth (negsuc n) = sub_ℕ 0 (suc n / 10)

abbrev pub epoch : ℤ
epoch = pos 0

module _ {Tm Double : Type 0} (c : CLibrary Tm Double) where
  -- UTCOffset, which is called once, at the start.
  unfoldable pub utc_offset : ℤ
  utc_offset = c.start -ℤ c.mktime (c.without_dst (c.gmtime c.start))

  -- The fraction of the seconds in units of 10^-10, rounded, without its last digit.
  unfoldable pub nanoseconds : Double → Tm → ℤ
  unfolding tenth
  nanoseconds seconds tm =
      tenth (c.lround (c.times (c.minus seconds (c.tm_sec tm)) (pos 10000000000)))

  -- Where the zone stands, if the seconds have a fraction with digits or none at all.
  unfoldable pub zone_at : Text → ℕ → Option ℕ
  unfolding byte_at
  zone_at s end =
      if byte_at end s == b'.'
      then (let taken = c.strtol_taken (drop (suc end) s) in
          if taken == 0 then none else some (suc end + taken))
      else some end

  -- The time, when the zone is at its place.
  unfoldable pub read_time : Text → Tm → ℕ → ℕ → ℤ
  unfolding byte_at nanoseconds utc_offset
  read_time s tm end zone =
      if not (byte_at zone s == b'Z') || not (byte_at (suc zone) s == 0)
      then epoch
      else (let seconds = c.strtod (drop (end - 2) s) in
          if end - 2 + seconds.1 == zone
          then (c.mktime (c.without_dst tm) +ℤ utc_offset) *ℤ pos (10 ^ 9)
            +ℤ nanoseconds (seconds.0) tm
          else epoch)

  -- FromString: the epoch where the text is no time.
  unfoldable pub from_string : Text → ℤ
  unfolding byte_at zone_at read_time
  from_string s = elim (c.strptime s) [
    | none ↦ epoch
    | some found ↦
        if is_digit (byte_at (found.1 - 2) s)
        then elim (zone_at s (found.1)) [
          | none ↦ epoch
          | some zone ↦ read_time s (found.0) (found.1) zone
        ]
        else epoch
  ]

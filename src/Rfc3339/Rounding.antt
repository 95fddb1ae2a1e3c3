-- ===== src/Rfc3339/Rounding.antt =====
-- src/time.cc: the doubles in which FromString reads the fraction of a second are close enough to it.
use metadata_agent.Prelude.{
  ℕ, suc, ◌+◌, ◌*◌, ◌^◌, ◌≤◌, ◌<◌, ℤ, pos, negsuc, ◌-ℤ◌, pos_part, neg_part, -ℤ_parts, ◌≡◌, ap, ◌∙◌,
  arith,
}
use native.Mathlib.Nat.{lt_of_mul-lt-mul_left, mul-le-mul_left}
use metadata_agent.Rfc3339.Read.{CLibrary, tenth, nanoseconds}

-- k * |i * a - j * b| is at most the bound.
abbrev pub Within : (k i : ℕ) → ℤ → (j : ℕ) → ℤ → (bound : ℕ) → Type 0
Within k i a j b bound =
    (k * (i * pos_part a + j * neg_part b) ≤ k * (j * pos_part b + i * neg_part a) + bound)
    × (k * (j * pos_part b + i * neg_part a) ≤ k * (i * pos_part a + j * neg_part b) + bound)

-- The doubles of a C library, whose values are multiples of 1/u: an operation rounds its exact result by at most
-- half a unit in the last of its 53 bits, which is 2^-48 for one below 64 and 2^-20 for one below 2^34, and
-- std::lround gives a nearest integer.
pub record RoundsDoubles {Tm Double : Type 0} (c : CLibrary Tm Double) (value : Double → ℤ) (u : ℕ)
    : Type 0 where
  pub unit : 0 < u
  pub minus_near :
      (d : Double) (n : ℕ)
      → Within 1 1 (value d) u (pos n) (63 * u)
      → Within (2 ^ 48) 1 (value (c.minus d (pos n))) 1 (value d -ℤ pos (u * n)) u
  pub times_near :
      (d : Double)
      → Within 1 1 (value d) 0 (pos 0) u
      → Within (2 ^ 20) 1 (value (c.times d (pos (10 ^ 10)))) (10 ^ 10) (value d) u
  pub lround_near :
      (d : Double)
      → Within 1 1 (value d) 0 (pos 0) (2 ^ 34 * u)
      → Within 2 u (c.lround d) 1 (value d) u

module _ (u : ℕ) where
  -- The errors of the steps add up to less than one unit.
  close :
      (sec ns whole : ℕ) (s δ m l : ℤ)
      → u * whole ≡ u * (sec * 10 ^ 9 + ns)
      → Within (2 ^ 48) (10 ^ 9) s u (pos whole) (10 ^ 9 * u)
      → Within (2 ^ 48) 1 δ 1 (s -ℤ pos (u * sec)) u
      → Within (2 ^ 20) 1 m (10 ^ 10) δ u
      → Within 2 u l 1 m u
      → 0 < u
      → (u * pos_part l < u * (10 * ns + suc (neg_part l)))
        × (u * (10 * ns + neg_part l) < u * suc (pos_part l))
  close sec ns whole s δ m l w a b c d h = omega (arith, w, -ℤ_parts s (pos (u * sec)))

  pub rounded :
      (ns : ℕ) (l : ℤ)
      → u * pos_part l < u * (10 * ns + suc (neg_part l))
      → u * (10 * ns + neg_part l) < u * suc (pos_part l)
      → l ≡ pos (10 * ns)
  rounded ns (pos l) h k =
      ap pos (omega (arith, lt_of_mul-lt-mul_left u h, lt_of_mul-lt-mul_left u k))
  rounded ns (negsuc l) h k = absurd (omega (arith, lt_of_mul-lt-mul_left u k))

  fraction_near :
      (sec ns whole : ℕ) (s : ℤ)
      → u * whole ≡ u * (sec * 10 ^ 9 + ns)
      → u * suc ns ≤ u * 10 ^ 9
      → Within (2 ^ 48) (10 ^ 9) s u (pos whole) (10 ^ 9 * u)
      → Within 1 1 s u (pos sec) (63 * u)
  fraction_near sec ns whole s w low a = omega (arith, w)

  below_one :
      (sec ns whole : ℕ) (s δ : ℤ)
      → u * whole ≡ u * (sec * 10 ^ 9 + ns)
      → u * suc ns ≤ u * 10 ^ 9
      → Within (2 ^ 48) (10 ^ 9) s u (pos whole) (10 ^ 9 * u)
      → Within (2 ^ 48) 1 δ 1 (s -ℤ pos (u * sec)) u
      → Within 1 1 δ 0 (pos 0) u
  below_one sec ns whole s δ w low a b = omega (arith, w, low, -ℤ_parts s (pos (u * sec)))

  below_range :
      (δ m : ℤ)
      → Within 1 1 δ 0 (pos 0) u
      → Within (2 ^ 20) 1 m (10 ^ 10) δ u
      → Within 1 1 m 0 (pos 0) (2 ^ 34 * u)
  below_range δ m a b = omega arith

module _ {Tm Double : Type 0} (c : CLibrary Tm Double) (value : Double → ℤ) (u : ℕ)
    (r : RoundsDoubles c value u) where
  -- Nanoseconds come back exactly, if the seconds were read to within 2^-48.
  pub nanoseconds_lem :
      (tm : Tm) (seconds : Double) (sec ns whole : ℕ)
      → c.tm_sec tm ≡ pos sec
      → whole ≡ sec * 10 ^ 9 + ns
      → ns < 10 ^ 9
      → Within (2 ^ 48) (10 ^ 9) (value seconds) u (pos whole) (10 ^ 9 * u)
      → nanoseconds c seconds tm ≡ pos ns
  unfolding nanoseconds tenth
  nanoseconds_lem tm seconds sec ns whole field w low read =
      let w' = ap (λ (t : ℕ). u * t) w in
      let low' = mul-le-mul_left u low in
      let s = value seconds in
      let difference = c.minus seconds (pos sec) in
      let product = c.times difference (pos (10 ^ 10)) in
      let a = r.minus_near seconds sec (fraction_near u sec ns whole s w' low' read) in
      let small = below_one u sec ns whole s (value difference) w' low' read a in
      let b = r.times_near difference small in
      let l = r.lround_near product (below_range u (value difference) (value product) small b) in
      let (above, below) =
        close u sec ns whole s (value difference) (value product) (c.lround product) w' read a b l
          r.unit in
      ap (λ (n : ℤ). tenth (c.lround (c.times (c.minus seconds n) (pos 10000000000)))) field
      ∙ ap tenth (rounded u ns (c.lround product) above below)
      ∙ ap pos (omega arith)

-- ===== src/Prelude/Order.antt =====
-- `operator<` as an interface: a strict total order, as std::map and std::set ask of their keys,
-- with the orders of numbers, pairs and sequences that the C++ library defines.
use Prim.Native.Nat.{ℕ}
use mathlib.Core.Path.{◌≡◌, refl}
use mathlib.Core.Bool.{Bool, true, false, not, ◌&&◌, ◌||◌}
use mathlib.Core.List.{List, [], ◌∷◌}
use mathlib.Core.Logic.{◌↔◌}
use native.Mathlib.Omega.{arith}
use metadata_agent.Prelude.Tests.{ltb}

pub record Ord {ℓ} (A : Type ℓ) : Type ℓ where
  pub lt : A → A → Bool
  pub irrefl : (a : A) → lt a a ≡ false
  pub trans : (a b c : A) → lt a b ≡ true → lt b c ≡ true → lt a c ≡ true
  pub total : (a b : A) → lt a b ≡ false → lt b a ≡ false → a ≡ b

module _ {ℓ} {A : Type ℓ} ⦃o : Ord A⦄ where
  abbrev pub lt : A → A → Bool
  lt = o.lt

  -- Two keys are equivalent if neither is below the other.
  unfoldable pub same : A → A → Bool
  same a b = not (o.lt a b) && not (o.lt b a)

  pub same_refl : (a : A) → same a a ≡ true
  unfolding same
  same_refl a = ground (arith, o.irrefl a)

  pub eq_of_same : (a b : A) → same a b ≡ true → a ≡ b
  unfolding same
  eq_of_same a b h = ground (arith, o.total a b)

  pub same_iff : (a b : A) → (same a b ≡ true) ↔ (a ≡ b)
  same_iff a b = (eq_of_same a b, λ e. ground (arith, same_refl a))

  pub asym : (a b : A) → lt a b ≡ true → lt b a ≡ false
  asym a b h = ground (arith, o.irrefl a, o.trans a b a)

  pub not-same_of_lt : (a b : A) → lt a b ≡ true → same a b ≡ false
  unfolding same
  not-same_of_lt a b h = ground arith

pub ltb_irrefl : (a : ℕ) → ltb a a ≡ false
ltb_irrefl a = ground arith

pub ltb_trans : (a b c : ℕ) → ltb a b ≡ true → ltb b c ≡ true → ltb a c ≡ true
ltb_trans a b c h k = ground arith

pub ltb_total : (a b : ℕ) → ltb a b ≡ false → ltb b a ≡ false → a ≡ b
ltb_total a b h k = ground arith

instance abbrev pub nat_ord : Ord ℕ
nat_ord = record { lt = ltb; irrefl = ltb_irrefl; trans = ltb_trans; total = ltb_total }

module _ {ℓ κ} {A : Type ℓ} {B : Type κ} ⦃o : Ord A⦄ ⦃p : Ord B⦄ where
  -- std::pair's operator<.
  abbrev pub pair_lt : A × B → A × B → Bool
  pair_lt (a, b) (a', b') = o.lt a a' || (not (o.lt a' a) && p.lt b b')

  pub pair_irrefl : (x : A × B) → pair_lt x x ≡ false
  pair_irrefl (a, b) = ground (arith, o.irrefl a, p.irrefl b)

  pub pair_trans : (x y z : A × B) → pair_lt x y ≡ true → pair_lt y z ≡ true → pair_lt x z ≡ true
  pair_trans (a, b) (a', b') (a'', b'') h k = ground (
    arith,
    o.trans a a' a'',
    o.total a a',
    o.total a' a'',
    p.trans b b' b'',
    o.irrefl a,
    o.irrefl a',
    asym a'' a,
    asym a a'',
    o.trans a'' a a',
    o.trans a' a'' a,
  )

  pub pair_total : (x y : A × B) → pair_lt x y ≡ false → pair_lt y x ≡ false → x ≡ y
  pair_total (a, b) (a', b') h k = ground (arith, o.total a a', p.total b b', asym a a')

  instance abbrev pub pair_ord : Ord (A × B)
  pair_ord = record { lt = pair_lt; irrefl = pair_irrefl; trans = pair_trans; total = pair_total }

module _ {ℓ} {A : Type ℓ} ⦃o : Ord A⦄ where
  -- std::lexicographical_compare, the operator< of strings, vectors and maps.
  unfoldable pub list_lt : List A → List A → Bool
  list_lt xs [] = false
  list_lt [] (y ∷ ys) = true
  list_lt (x ∷ xs) (y ∷ ys) = o.lt x y || (not (o.lt y x) && list_lt xs ys)

  pub list_irrefl : (xs : List A) → list_lt xs xs ≡ false
  unfolding list_lt
  list_irrefl [] = refl
  list_irrefl (x ∷ xs) = ground (arith, o.irrefl x, list_irrefl xs)

  pub list_trans :
      (xs ys zs : List A) → list_lt xs ys ≡ true → list_lt ys zs ≡ true → list_lt xs zs ≡ true
  unfolding list_lt
  list_trans [] [] zs h k = absurd (ground arith)
  list_trans [] (y ∷ ys) [] h k = absurd (ground arith)
  list_trans [] (y ∷ ys) (z ∷ zs) h k = refl
  list_trans (x ∷ xs) [] zs h k = absurd (ground arith)
  list_trans (x ∷ xs) (y ∷ ys) [] h k = absurd (ground arith)
  list_trans (x ∷ xs) (y ∷ ys) (z ∷ zs) h k = ground (
    arith,
    o.trans x y z,
    o.total x y,
    o.total y z,
    list_trans xs ys zs,
    asym z x,
    asym x z,
    o.trans z x y,
    o.trans y z x,
    o.irrefl x,
    o.irrefl y,
  )

  pub list_total : (xs ys : List A) → list_lt xs ys ≡ false → list_lt ys xs ≡ false → xs ≡ ys
  unfolding list_lt
  list_total [] [] h k = refl
  list_total [] (y ∷ ys) h k = absurd (ground arith)
  list_total (x ∷ xs) [] h k = absurd (ground arith)
  list_total (x ∷ xs) (y ∷ ys) h k = ground (arith, o.total x y, list_total xs ys, asym x y)

  instance abbrev pub list_ord : Ord (List A)
  list_ord = record { lt = list_lt; irrefl = list_irrefl; trans = list_trans; total = list_total }

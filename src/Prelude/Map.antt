-- ===== src/Prelude/Map.antt =====
-- std::map as the sequence of its entries, in the order of the keys. `emplace` keeps an entry that
-- is already there, as the C++ one does. std::set is a map to `Unit`.
pub mod Laws
pub mod Sorted
use mathlib.Core.Path.{◌≡◌, refl}
use mathlib.Core.Bool.{Bool, true, false}
use mathlib.Core.List.{List, [], ◌∷◌, ◌++◌, map}
use mathlib.Core.Option.{Option, none, some}
use metadata_agent.Prelude.Tests.{if◌then◌else◌, or_else, is_some}
use metadata_agent.Prelude.Lists.{All}
use metadata_agent.Prelude.Order.{Ord, lt, same}

-- The entries.
abbrev pub Map {ℓ κ} : Type ℓ → Type κ → Type (ℓ ⊔ κ)
Map K V = List (K × V)

module _ {ℓ κ} {K : Type ℓ} {V : Type κ} ⦃o : Ord K⦄ where
  -- m.find(k), and m.at(k) where the result is asked for.
  unfoldable pub find : K → Map K V → Option V
  find k [] = none
  find k ((j, v) ∷ m) = if same j k then some v else find k m

  abbrev pub has : K → Map K V → Bool
  has k m = is_some (find k m)

  -- A new entry before the first greater key.
  unfoldable pub insert_sorted : K → V → Map K V → Map K V
  insert_sorted k v [] = (k, v) ∷ []
  insert_sorted k v ((j, w) ∷ m) =
      if lt k j then (k, v) ∷ (j, w) ∷ m else (j, w) ∷ insert_sorted k v m

  -- m.emplace(k, v): an entry that is there stays as it is.
  unfoldable pub emplace : K → V → Map K V → Map K V
  emplace k v m = elim (find k m) [ none ↦ insert_sorted k v m | some w ↦ m ]

  -- m.erase(k).
  unfoldable pub erase : K → Map K V → Map K V
  erase k [] = []
  erase k ((j, v) ∷ m) = let rest = erase k m in if same j k then rest else (j, v) ∷ rest

  -- m.erase(k); m.emplace(k, v), and m.emplace(k, _).first->second = v.
  unfoldable pub assign : K → V → Map K V → Map K V
  assign k v m = emplace k v (erase k m)

  -- Each entry of a list emplaced in turn.
  unfoldable pub emplace_all : Map K V → Map K V → Map K V
  emplace_all [] m = m
  emplace_all ((k, v) ∷ r) m = emplace_all r (emplace k v m)

  -- Every key of the map is above `k`.
  abbrev pub AllAbove : K → Map K V → Type 0
  AllAbove k [] = Unit
  AllAbove k ((j, v) ∷ m) = (lt k j ≡ true) × AllAbove k m

  -- The representation invariant: the keys strictly increase.
  abbrev pub IsSorted : Map K V → Type 0
  IsSorted [] = Unit
  IsSorted ((k, v) ∷ m) = AllAbove k m × IsSorted m

-- ===== src/Prelude/Map/Laws.antt =====
-- What a map's operations do to its lookups, with no side condition.
use mathlib.Core.Path.{◌≡◌, refl}
use mathlib.Core.List.{[], ◌∷◌}
use mathlib.Core.Option.{none, some}
use native.Mathlib.Omega.{arith}
use metadata_agent.Prelude.Tests.{if◌then◌else◌, or_else}
use metadata_agent.Prelude.Order.{Ord, same, same_iff}
use metadata_agent.Prelude.Map.{Map, find, insert_sorted, emplace, erase, assign}

module _ {ℓ κ} {K : Type ℓ} {V : Type κ} ⦃o : Ord K⦄ where
  pub find-insert_sorted :
      (j k : K) (v : V) (m : Map K V)
      → find k m ≡ none
      → find j (insert_sorted k v m) ≡ (if same k j then some v else find j m)
  unfolding find insert_sorted
  find-insert_sorted j k v [] h = refl
  find-insert_sorted j k v ((i, w) ∷ m) h =
      ground (arith, find-insert_sorted j k v m, same_iff i j, same_iff i k, same_iff k j)

  pub find-emplace :
      (j k : K) (v : V) (m : Map K V)
      → find j (emplace k v m) ≡ or_else (find j m) (if same k j then some v else none)
  unfolding emplace
  find-emplace j k v m = ground (arith, find-insert_sorted j k v m, same_iff k j)

  pub find-erase :
      (j k : K) (m : Map K V) → find j (erase k m) ≡ (if same k j then none else find j m)
  unfolding find erase
  find-erase j k [] = ground arith
  find-erase j k ((i, w) ∷ m) =
      ground (arith, find-erase j k m, same_iff i j, same_iff i k, same_iff k j)

  pub find-assign :
      (j k : K) (v : V) (m : Map K V)
      → find j (assign k v m) ≡ (if same k j then some v else find j m)
  unfolding assign
  find-assign j k v m = ground (arith, find-emplace j k v (erase k m), find-erase j k m)

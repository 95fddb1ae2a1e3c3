-- ===== src/Prelude/Map/Sorted.antt =====
-- The operations keep the keys in order, and a map in order is determined by its lookups.
use mathlib.Core.Path.{◌≡◌, refl, ◌∙◌}
use mathlib.Core.Bool.{true}
use mathlib.Core.List.{[], ◌∷◌, ◌++◌, append-nil, append_assoc}
use mathlib.Core.Option.{none, some}
use native.Mathlib.Omega.{arith}
use metadata_agent.Prelude.Order.{Ord, lt, same, same_iff, not-same_of_lt, asym}
use metadata_agent.Prelude.Map.{
  Map, find, insert_sorted, emplace, erase, assign, emplace_all, AllAbove, IsSorted,
}

module _ {ℓ κ} {K : Type ℓ} {V : Type κ} ⦃o : Ord K⦄ where
  pub AllAbove-trans : (i j : K) (m : Map K V) → lt i j ≡ true → AllAbove j m → AllAbove i m
  AllAbove-trans i j [] h a = tt
  AllAbove-trans i j ((k, v) ∷ m) h a = (o.trans i j k h a.0, AllAbove-trans i j m h a.1)

  AllAbove-insert_sorted :
      (i k : K) (v : V) (m : Map K V)
      → lt i k ≡ true
      → AllAbove i m
      → AllAbove i (insert_sorted k v m)
  unfolding insert_sorted
  AllAbove-insert_sorted i k v [] h a = (h, tt)
  AllAbove-insert_sorted i k v ((j, w) ∷ m) h a = ground (arith, AllAbove-insert_sorted i k v m)

  insert_sorted-IsSorted :
      (k : K) (v : V) (m : Map K V) → find k m ≡ none → IsSorted m → IsSorted (insert_sorted k v m)
  unfolding find insert_sorted same
  insert_sorted-IsSorted k v [] h s = (tt, tt)
  insert_sorted-IsSorted k v ((j, w) ∷ m) h s = ground (
    arith,
    insert_sorted-IsSorted k v m,
    AllAbove-trans k j m,
    AllAbove-insert_sorted j k v m,
    o.total j k,
  )

  pub emplace-IsSorted : (k : K) (v : V) (m : Map K V) → IsSorted m → IsSorted (emplace k v m)
  unfolding emplace
  emplace-IsSorted k v m s = ground (arith, insert_sorted-IsSorted k v m)

  AllAbove-erase : (i k : K) (m : Map K V) → AllAbove i m → AllAbove i (erase k m)
  unfolding erase
  AllAbove-erase i k [] a = tt
  AllAbove-erase i k ((j, w) ∷ m) a = ground (arith, AllAbove-erase i k m)

  pub erase-IsSorted : (k : K) (m : Map K V) → IsSorted m → IsSorted (erase k m)
  unfolding erase
  erase-IsSorted k [] s = tt
  erase-IsSorted k ((j, w) ∷ m) s = ground (arith, erase-IsSorted k m, AllAbove-erase j k m)

  pub assign-IsSorted : (k : K) (v : V) (m : Map K V) → IsSorted m → IsSorted (assign k v m)
  unfolding assign
  assign-IsSorted k v m s = emplace-IsSorted k v (erase k m) (erase-IsSorted k m s)

  pub emplace_all-IsSorted : (r m : Map K V) → IsSorted m → IsSorted (emplace_all r m)
  unfolding emplace_all
  emplace_all-IsSorted [] m s = s
  emplace_all-IsSorted ((k, v) ∷ r) m s =
      emplace_all-IsSorted r (emplace k v m) (emplace-IsSorted k v m s)

  -- A key below all keys of a map is not in it.
  pub find_of_AllAbove : (k : K) (m : Map K V) → AllAbove k m → find k m ≡ none
  unfolding find
  find_of_AllAbove k [] a = refl
  find_of_AllAbove k ((j, v) ∷ m) a = ground (arith, find_of_AllAbove k m, same_iff j k, o.irrefl k)

  -- Every key of the map is below `k`.
  abbrev AllBelow : Map K V → K → Type 0
  AllBelow [] k = Unit
  AllBelow ((j, v) ∷ m) k = (lt j k ≡ true) × AllBelow m k

  emplace_last :
      (k : K) (v : V) (m : Map K V) → AllBelow m k → insert_sorted k v m ≡ m ++ (k, v) ∷ []
  unfolding insert_sorted
  emplace_last k v [] b = refl
  emplace_last k v ((j, w) ∷ m) b = ground (arith, emplace_last k v m, asym j k)

  find_of_AllBelow : (k : K) (m : Map K V) → AllBelow m k → find k m ≡ none
  unfolding find
  find_of_AllBelow k [] b = refl
  find_of_AllBelow k ((j, w) ∷ m) b = ground (arith, find_of_AllBelow k m, not-same_of_lt j k)

  AllBelow-of_sorted : (m r : Map K V) (k : K) (v : V) → IsSorted (m ++ (k, v) ∷ r) → AllBelow m k
  AllBelow-of_sorted [] r k v s = tt
  AllBelow-of_sorted ((j, w) ∷ m) r k v s = (above m s.0, AllBelow-of_sorted m r k v s.1)
    where
      above : (n : Map K V) → AllAbove j (n ++ (k, v) ∷ r) → lt j k ≡ true
      above [] a = a.0
      above (e ∷ n) a = above n a.1

  emplace-AllBelow : (k : K) (v : V) (m : Map K V) → AllBelow m k → emplace k v m ≡ m ++ (k, v) ∷ []
  unfolding emplace
  emplace-AllBelow k v m b = ground (arith, emplace_last k v m, find_of_AllBelow k m)

  -- Emplacing the entries of a sorted map in their order rebuilds it.
  emplace_all_append : (r m : Map K V) → IsSorted (m ++ r) → emplace_all r m ≡ m ++ r
  unfolding emplace_all
  emplace_all_append [] m s = rw append-nil
  emplace_all_append ((k, v) ∷ r) m s =
      rw (emplace-AllBelow k v m (AllBelow-of_sorted m r k v s)) (
        emplace_all_append r (m ++ (k, v) ∷ []) (rw append_assoc s)
        ∙ append_assoc m ((k, v) ∷ []) r)

  pub emplace_all_sorted : (m : Map K V) → IsSorted m → emplace_all m [] ≡ m
  emplace_all_sorted m s = emplace_all_append m [] s

  pub AllAbove-of_find :
      (i : K) (v : V) (k : K) (m : Map K V) → AllAbove k m → find i m ≡ some v → lt k i ≡ true
  unfolding find
  AllAbove-of_find i v k [] a h = cc
  AllAbove-of_find i v k ((j, w) ∷ m) a h = ground (arith, AllAbove-of_find i v k m, same_iff j i)

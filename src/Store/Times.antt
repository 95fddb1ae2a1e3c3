-- ===== src/Store/Times.antt =====
-- The time stamps of the resource types only grow.
use metadata_agent.Prelude.{text_ord, ◌≤ℤ◌, Text, Option, none, some, List, [], ◌∷◌, arith}
use metadata_agent.Prelude.Order.{same_iff}
use metadata_agent.Prelude.Map.{find}
use metadata_agent.Store.{
  Timestamp, MetadataStore, update_resource, update_metadata, purge_deleted_entries,
}
use metadata_agent.Store.Reads.{latest, find-collect}
use metadata_agent.Store.Invariant.{Change, add_resource, add_metadata, purge, apply, apply_all}

-- The second time stamp is there if the first is, and is no earlier.
abbrev pub NoEarlier : Option Timestamp → Option Timestamp → Type 0
NoEarlier none new = Unit
NoEarlier (some old) none = ⊥
NoEarlier (some old) (some new) = old ≤ℤ new

NoEarlier-refl : (t : Option Timestamp) → NoEarlier t t
NoEarlier-refl none = tt
NoEarlier-refl (some t) = omega arith

NoEarlier-trans : (a b c : Option Timestamp) → NoEarlier a b → NoEarlier b c → NoEarlier a c
NoEarlier-trans none b c h k = tt
NoEarlier-trans (some a) none c h k = absurd h
NoEarlier-trans (some a) (some b) none h k = absurd k
NoEarlier-trans (some a) (some b) (some c) h k = omega arith

NoEarlier-latest : (old : Option Timestamp) (t : Timestamp) → NoEarlier old (some (latest old t))
NoEarlier-latest none t = tt
NoEarlier-latest (some old) t = ground arith

module _ {Num : Type 0} where
  apply-NoEarlier :
      (type : Text) (c : Change Num) (s : MetadataStore Num)
      → NoEarlier (find type s.last_collection_times) (find type (apply c s).last_collection_times)
  unfolding apply update_resource update_metadata purge_deleted_entries
  apply-NoEarlier type (add_resource ids r) s = NoEarlier-refl (find type s.last_collection_times)
  apply-NoEarlier type (add_metadata r e) s = ground (
    arith,
    NoEarlier-refl (find type s.last_collection_times),
    find-collect type r.type e.collected_at s.last_collection_times,
    same_iff r.type type,
    NoEarlier-latest (find r.type s.last_collection_times) e.collected_at,
  )
  apply-NoEarlier type purge s = NoEarlier-refl (find type s.last_collection_times)

  -- The last collection time of a type never goes back and is never forgotten, whatever the threads
  -- do; a purge of the entries does not touch it.
  pub apply_all-NoEarlier :
      (type : Text) (cs : List (Change Num)) (s : MetadataStore Num)
      → NoEarlier
          (find type s.last_collection_times)
          (find type (apply_all cs s).last_collection_times)
  unfolding apply_all
  apply_all-NoEarlier type [] s = NoEarlier-refl (find type s.last_collection_times)
  apply_all-NoEarlier type (c ∷ cs) s =
      NoEarlier-trans (find type s.last_collection_times)
        (find type (apply c s).last_collection_times)
        (find type (apply_all cs (apply c s)).last_collection_times) (apply-NoEarlier type c s)
        (apply_all-NoEarlier type cs (apply c s))

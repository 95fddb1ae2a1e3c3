-- ===== src/Store/Invariant.antt =====
-- Every operation of the store, in any order, keeps its invariant.
use metadata_agent.Prelude.{
  text_ord, Text, true, false, Option, none, some, List, [], ◌∷◌, ◌≡◌, arith, sym, Bool-cases, inl,
  inr, subst, All,
}
use metadata_agent.Prelude.Order.{same_iff, same_refl}
use metadata_agent.Prelude.Map.{Map, find, emplace, erase, IsSorted}
use metadata_agent.Prelude.Map.Sorted.{emplace-IsSorted, erase-IsSorted, assign-IsSorted}
use metadata_agent.Resource.{MonitoredResource, resource_ord}
use metadata_agent.Store.{
  Timestamp, Metadata, MetadataStore, alias, update_resource, collect, update_metadata,
  purge_deleted_entries, empty_store,
}
use metadata_agent.Store.Reads.{latest, update_metadata_effect}
use metadata_agent.Store.Purge.{
  IsStorable, Covers, IsValid, unless_deleted, emplace-AllStorable, erase-AllStorable,
  live_entries-IsSorted, live_entries-AllStorable, find-live_entries,
}

alias-IsSorted :
    (ids : List Text) (r : MonitoredResource) (m : Map Text MonitoredResource)
    → IsSorted m
    → IsSorted (alias ids r m)
unfolding alias
alias-IsSorted [] r m h = h
alias-IsSorted (i ∷ ids) r m h = alias-IsSorted ids r (emplace i r m) (emplace-IsSorted i r m h)

collect-IsSorted :
    (type : Text) (t : Timestamp) (m : Map Text Timestamp)
    → IsSorted m
    → IsSorted (collect type t m)
unfolding collect
collect-IsSorted type t m h =
    ground (arith, emplace-IsSorted type t m h, assign-IsSorted type t m h)

-- A call that changes the store: the updaters make the first two, the reporter makes the third.
pub data Change (Num : Type 0) : Type 0 where
  add_resource : List Text → MonitoredResource → Change Num
  add_metadata : MonitoredResource → Metadata Num → Change Num
  purge : Change Num

module _ {Num : Type 0} where
  unfoldable pub apply : Change Num → MetadataStore Num → MetadataStore Num
  apply (add_resource ids r) s = update_resource ids r s
  apply (add_metadata r e) s = update_metadata r e s
  apply purge s = purge_deleted_entries s

  -- The calls of all threads in the order in which they take the locks.
  unfoldable pub apply_all : List (Change Num) → MetadataStore Num → MetadataStore Num
  unfolding apply
  apply_all [] s = s
  apply_all (c ∷ cs) s = apply_all cs (apply c s)

  -- An entry that an updater hands over is ignored or fit to be stored.
  abbrev pub IsProper : Change Num → Type 0
  IsProper (add_resource ids r) = Unit
  IsProper (add_metadata r e) = e.ignore ≡ false → IsStorable e
  IsProper purge = Unit

  update_resource-IsValid :
      (ids : List Text) (r : MonitoredResource) (s : MetadataStore Num)
      → IsValid s
      → IsValid (update_resource ids r s)
  unfolding update_resource
  update_resource-IsValid ids r s v = record {
    resources_sorted = alias-IsSorted ids r s.resource_map v.resources_sorted;
    metadata_sorted = v.metadata_sorted;
    times_sorted = v.times_sorted;
    storable = v.storable;
    covered = v.covered;
  }

  Covers-latest :
      (x : Option (Metadata Num)) (old : Option Timestamp) (t : Timestamp)
      → Covers x old
      → Covers x (some (latest old t))
  Covers-latest none old t c = tt
  Covers-latest (some e) none t c = absurd c
  Covers-latest (some e) (some old) t c = ground arith

  latest-Covers :
      (e : Metadata Num) (old : Option Timestamp)
      → Covers (some e) (some (latest old e.collected_at))
  latest-Covers e none = ground arith
  latest-Covers e (some old) = ground arith

  update_metadata-Covers :
      (r q : MonitoredResource) (e : Metadata Num) (s : MetadataStore Num)
      → e.ignore ≡ false
      → Covers (find q s.metadata_map) (find q.type s.last_collection_times)
      → Covers
          (find q (update_metadata r e s).metadata_map)
          (find q.type (update_metadata r e s).last_collection_times)
  update_metadata-Covers r q e s k c =
      let effect = update_metadata_effect r q q.type e s k in
      ground (
        arith,
        effect.0,
        effect.1,
        same_iff r q,
        same_iff r.type q.type,
        same_refl r.type,
        latest-Covers e (find r.type s.last_collection_times),
        Covers-latest (find q s.metadata_map) (find r.type s.last_collection_times) e.collected_at,
      )

  store_entry-IsValid :
      (r : MonitoredResource) (e : Metadata Num) (s : MetadataStore Num)
      → IsStorable e
      → IsValid s
      → IsValid (update_metadata r e s)
  unfolding update_metadata
  store_entry-IsValid r e s k v = record {
    resources_sorted = ground arith;
    metadata_sorted = ground (
      arith,
      emplace-IsSorted r e (erase r s.metadata_map),
      erase-IsSorted r s.metadata_map v.metadata_sorted,
    );
    times_sorted =
        ground
          (arith, collect-IsSorted r.type e.collected_at s.last_collection_times v.times_sorted);
    storable = ground (
      arith,
      emplace-AllStorable r e (erase r s.metadata_map) k,
      erase-AllStorable r s.metadata_map v.storable,
    );
    covered = λ q. update_metadata-Covers r q e s k.kept (v.covered q);
  }

  -- An entry that is to be ignored changes nothing.
  pub update_metadata-ignored :
      (r : MonitoredResource) (e : Metadata Num) (s : MetadataStore Num)
      → e.ignore ≡ true
      → update_metadata r e s ≡ s
  unfolding update_metadata
  update_metadata-ignored r e s h = ground arith

  pub update_metadata-IsValid :
      (r : MonitoredResource) (e : Metadata Num) (s : MetadataStore Num)
      → (e.ignore ≡ false → IsStorable e)
      → IsValid s
      → IsValid (update_metadata r e s)
  update_metadata-IsValid r e s k v = elim (Bool-cases e.ignore) [
    | inl skip ↦ subst IsValid (sym (update_metadata-ignored r e s skip)) v
    | inr keep ↦ store_entry-IsValid r e s (k keep) v
  ]

  unless_deleted-Covers :
      (x : Option (Metadata Num)) (t : Option Timestamp) → Covers x t → Covers (unless_deleted x) t
  unless_deleted-Covers none t c = tt
  unless_deleted-Covers (some e) none c = absurd c
  unless_deleted-Covers (some e) (some t) c = ground arith

  purge_deleted_entries-IsValid :
      (s : MetadataStore Num) → IsValid s → IsValid (purge_deleted_entries s)
  unfolding purge_deleted_entries
  purge_deleted_entries-IsValid s v = record {
    resources_sorted = v.resources_sorted;
    metadata_sorted = live_entries-IsSorted s.metadata_map v.metadata_sorted;
    times_sorted = v.times_sorted;
    storable = live_entries-AllStorable s.metadata_map v.storable;
    covered = λ q.
        rw (find-live_entries q s.metadata_map v.metadata_sorted)
          (unless_deleted-Covers (find q s.metadata_map) _ (v.covered q));
  }

  apply-IsValid :
      (c : Change Num) (s : MetadataStore Num) → IsProper c → IsValid s → IsValid (apply c s)
  unfolding apply
  apply-IsValid (add_resource ids r) s p v = update_resource-IsValid ids r s v
  apply-IsValid (add_metadata r e) s p v = update_metadata-IsValid r e s p v
  apply-IsValid purge s p v = purge_deleted_entries-IsValid s v

  -- Whatever the threads do, in whatever order they take the locks, the maps of a valid store stay in
  -- order, no entry that is to be ignored is stored, and no entry is later than the time stamp of its
  -- type, if each entry that an updater hands over is ignored or fit to be stored.
  pub apply_all-IsValid :
      (cs : List (Change Num)) (s : MetadataStore Num)
      → All IsProper cs
      → IsValid s
      → IsValid (apply_all cs s)
  unfolding apply_all
  apply_all-IsValid [] s p v = v
  apply_all-IsValid (c ∷ cs) s p v = apply_all-IsValid cs (apply c s) p.1 (apply-IsValid c s p.0 v)

  pub empty_store-IsValid : IsValid (empty_store {Num = Num})
  unfolding find
  empty_store-IsValid = record {
    resources_sorted = tt;
    metadata_sorted = tt;
    times_sorted = tt;
    storable = tt;
    covered = λ r. tt;
  }

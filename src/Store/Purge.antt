-- ===== src/Store/Purge.antt =====
-- The store's invariant, the copy that the reporter takes, and the purge.
use metadata_agent.Prelude.{
  text_ord, ◌≤ℤ◌, false, Option, none, some, [], ◌∷◌, ◌≡◌, refl, arith, ◌∙◌, Bool-cases, inl, inr,
  if◌then◌else◌,
}
use metadata_agent.Prelude.Order.{lt, same, same_iff}
use metadata_agent.Prelude.Map.{
  Map, find, insert_sorted, emplace, erase, emplace_all, IsSorted, AllAbove,
}
use metadata_agent.Prelude.Map.Sorted.{emplace_all_sorted, find_of_AllAbove}
use metadata_agent.Json.Clone.{IsOrdered, clone_faithful}
use metadata_agent.Resource.{MonitoredResource, resource_ord}
use metadata_agent.Store.{
  Timestamp, Metadata, MetadataStore, clone_entry, copy_entries, get_metadata_map, live_entries,
  purge_deleted_entries,
}

module _ {Num : Type 0} where
  -- An entry that may stand in the store: not to be ignored, and a value whose maps are in order.
  pub record IsStorable (e : Metadata Num) : Type 0 where
    pub kept : e.ignore ≡ false
    pub ordered : IsOrdered e.metadata

  abbrev pub AllStorable : Map MonitoredResource (Metadata Num) → Type 0
  AllStorable [] = Unit
  AllStorable ((r, e) ∷ m) = IsStorable e × AllStorable m

  clone_entry-eq : (e : Metadata Num) → IsStorable e → clone_entry e ≡ e
  unfolding clone_entry
  clone_entry-eq e h = ground (arith, clone_faithful e.metadata h.ordered)

  copy_entries-eq :
      (m result : Map MonitoredResource (Metadata Num))
      → AllStorable m
      → copy_entries m result ≡ emplace_all m result
  unfolding copy_entries emplace_all
  copy_entries-eq [] result h = refl
  copy_entries-eq ((r, e) ∷ m) result h =
      rw (clone_entry-eq e h.0) (copy_entries-eq m (emplace r e result) h.1)

  -- The entry that a purge leaves of a lookup.
  abbrev pub unless_deleted : Option (Metadata Num) → Option (Metadata Num)
  unless_deleted none = none
  unless_deleted (some e) = if e.is_deleted then none else some e

  pub find-live_entries :
      (q : MonitoredResource) (m : Map MonitoredResource (Metadata Num))
      → IsSorted m
      → find q (live_entries m) ≡ unless_deleted (find q m)
  unfolding find live_entries
  find-live_entries q [] h = refl
  find-live_entries q ((r, e) ∷ m) h =
      ground (arith, find-live_entries q m h.1, find_of_AllAbove r m h.0, same_iff r q)

  live_entries-AllAbove :
      (q : MonitoredResource) (m : Map MonitoredResource (Metadata Num))
      → AllAbove q m
      → AllAbove q (live_entries m)
  unfolding live_entries
  live_entries-AllAbove q [] h = tt
  live_entries-AllAbove q ((r, e) ∷ m) h = ground (arith, live_entries-AllAbove q m h.1)

  pub live_entries-IsSorted :
      (m : Map MonitoredResource (Metadata Num)) → IsSorted m → IsSorted (live_entries m)
  unfolding live_entries
  live_entries-IsSorted [] h = tt
  live_entries-IsSorted ((r, e) ∷ m) h =
      ground (arith, live_entries-IsSorted m h.1, live_entries-AllAbove r m h.0)

  pub live_entries-AllStorable :
      (m : Map MonitoredResource (Metadata Num)) → AllStorable m → AllStorable (live_entries m)
  unfolding live_entries
  live_entries-AllStorable [] h = tt
  live_entries-AllStorable ((r, e) ∷ m) h = ground (arith, live_entries-AllStorable m h.1)

  pub erase-AllStorable :
      (r : MonitoredResource) (m : Map MonitoredResource (Metadata Num))
      → AllStorable m
      → AllStorable (erase r m)
  unfolding erase
  erase-AllStorable r [] h = tt
  erase-AllStorable r ((q, e) ∷ m) h = elim (Bool-cases (same q r)) [
    | inl here ↦ rw here (erase-AllStorable r m h.1)
    | inr other ↦ rw other (h.0, erase-AllStorable r m h.1)
  ]

  insert_sorted-AllStorable :
      (r : MonitoredResource) (e : Metadata Num) (m : Map MonitoredResource (Metadata Num))
      → IsStorable e
      → AllStorable m
      → AllStorable (insert_sorted r e m)
  unfolding insert_sorted
  insert_sorted-AllStorable r e [] k h = (k, tt)
  insert_sorted-AllStorable r e ((q, f) ∷ m) k h = elim (Bool-cases (lt r q)) [
    | inl here ↦ rw here (k, h)
    | inr later ↦ rw later (h.0, insert_sorted-AllStorable r e m k h.1)
  ]

  pub emplace-AllStorable :
      (r : MonitoredResource) (e : Metadata Num) (m : Map MonitoredResource (Metadata Num))
      → IsStorable e
      → AllStorable m
      → AllStorable (emplace r e m)
  unfolding emplace
  emplace-AllStorable r e m k h = ground (arith, insert_sorted-AllStorable r e m k h)

  -- The entry is no later than the time stamp of its type.
  abbrev pub Covers : Option (Metadata Num) → Option Timestamp → Type 0
  Covers none t = Unit
  Covers (some e) none = ⊥
  Covers (some e) (some t) = e.collected_at ≤ℤ t

  -- The store's invariant: the maps are in order, nothing that is to be ignored is stored, and a
  -- type's time stamp is that of its latest entry or later.
  pub record IsValid (s : MetadataStore Num) : Type 0 where
    pub resources_sorted : IsSorted s.resource_map
    pub metadata_sorted : IsSorted s.metadata_map
    pub times_sorted : IsSorted s.last_collection_times
    pub storable : AllStorable s.metadata_map
    pub covered :
        (r : MonitoredResource)
        → Covers (find r s.metadata_map) (find r.type s.last_collection_times)

  -- What the reporter is given is exactly the metadata map, entry for entry.
  pub get_metadata_map-eq :
      (s : MetadataStore Num) → IsValid s → get_metadata_map s ≡ s.metadata_map
  unfolding get_metadata_map
  get_metadata_map-eq s v =
      copy_entries-eq s.metadata_map [] v.storable
      ∙ emplace_all_sorted s.metadata_map v.metadata_sorted

  -- A purge removes the entries that are marked as deleted and no others, and leaves the aliases and
  -- the time stamps of the types alone.
  pub purge_deleted_entries_effect :
      (q : MonitoredResource) (s : MetadataStore Num)
      → IsValid s
      → (find q (purge_deleted_entries s).metadata_map ≡ unless_deleted (find q s.metadata_map))
        × ((purge_deleted_entries s).resource_map ≡ s.resource_map)
        × ((purge_deleted_entries s).last_collection_times ≡ s.last_collection_times)
  unfolding purge_deleted_entries
  purge_deleted_entries_effect q s v =
      (find-live_entries q s.metadata_map v.metadata_sorted, refl, refl)

-- ===== src/Tests/Store.antt =====
-- A store with a live and a deleted entry.
use metadata_agent.Prelude.{text_ord, ℤ, pos, true, false, List, [], ◌∷◌, ◌≡◌, refl}
use metadata_agent.Prelude.Map.{find}
use metadata_agent.Json.{null}
use metadata_agent.Resource.{MonitoredResource, resource_ord}
use metadata_agent.Store.{Metadata, MetadataStore, entry_of, empty_store, purge_deleted_entries}
use metadata_agent.Store.Purge.{IsValid, IsStorable, purge_deleted_entries_effect, unless_deleted}
use metadata_agent.Store.Invariant.{
  Change, add_resource, add_metadata, purge, apply_all, apply_all-IsValid, empty_store-IsValid,
}
use metadata_agent.Store.Times.{apply_all-NoEarlier, NoEarlier}

abbrev pub pod : MonitoredResource
pod = record { type = 112 ∷ []; labels = [] }

abbrev pub node : MonitoredResource
node = record { type = 110 ∷ []; labels = [] }

abbrev pub live : Metadata ℤ
live = entry_of [] false (pos 0) (pos 5) null

abbrev pub dead : Metadata ℤ
dead = entry_of [] true (pos 0) (pos 7) null

pub dead-IsStorable : IsStorable dead
dead-IsStorable = record { kept = refl; ordered = tt }

live-IsStorable : IsStorable live
live-IsStorable = record { kept = refl; ordered = tt }

abbrev pub script : List (Change ℤ)
script = add_resource ((120 ∷ []) ∷ []) pod ∷ add_metadata pod live ∷ add_metadata node dead ∷ []

abbrev pub filled : MetadataStore ℤ
filled = apply_all script empty_store

pub filled-IsValid : IsValid filled
filled-IsValid =
    apply_all-IsValid script empty_store
      (tt, ((λ _. live-IsStorable), ((λ _. dead-IsStorable), tt))) empty_store-IsValid

apply_all-IsValid_example : IsValid (apply_all (purge ∷ script) filled)
apply_all-IsValid_example =
    apply_all-IsValid (purge ∷ script) filled
      (tt, (tt, ((λ _. live-IsStorable), ((λ _. dead-IsStorable), tt)))) filled-IsValid

apply_all-NoEarlier_example :
    NoEarlier
      (find (112 ∷ []) filled.last_collection_times)
      (find (112 ∷ []) (apply_all script filled).last_collection_times)
apply_all-NoEarlier_example = apply_all-NoEarlier (112 ∷ []) script filled

purge_deleted_entries_effect_example :
    (find node (purge_deleted_entries filled).metadata_map
      ≡ unless_deleted (find node filled.metadata_map))
    × ((purge_deleted_entries filled).resource_map ≡ filled.resource_map)
    × ((purge_deleted_entries filled).last_collection_times ≡ filled.last_collection_times)
purge_deleted_entries_effect_example = purge_deleted_entries_effect node filled filled-IsValid

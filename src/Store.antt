-- ===== src/Store.antt =====
-- src/store.h, src/store.cc: the store of the metadata mapping. The two mutexes make each operation
-- atomic: an operation is one function on the state.
pub mod Reads
pub mod Purge
pub mod Invariant
pub mod Times
use metadata_agent.Prelude.{
  text_ord, ℤ, pos, ltb_ℤ, Text, codes, Bool, true, false, Option, none, some, List, [], ◌∷◌, ◌≡◌,
  if◌then◌else◌,
}
use metadata_agent.Prelude.Map.{Map, find, emplace, erase, assign, IsSorted, AllAbove}
use metadata_agent.Exceptions.{Result, ok, raise, out_of_range}
use metadata_agent.Json.{Value, object_of}
use metadata_agent.Json.Clone.{clone, IsOrdered}
use metadata_agent.Resource.{MonitoredResource, resource_ord, resource_lt}

-- Nanoseconds since the epoch.
abbrev pub Timestamp : Type 0
Timestamp = ℤ

-- MetadataStore::Metadata.
pub record Metadata (Num : Type 0) : Type 0 where
  pub version : Text
  pub is_deleted : Bool
  pub created_at : Timestamp
  pub collected_at : Timestamp
  pub metadata : Value Num
  pub ignore : Bool

pub record MetadataStore (Num : Type 0) : Type 0 where
  pub resource_map : Map Text MonitoredResource
  pub metadata_map : Map MonitoredResource (Metadata Num)
  pub last_collection_times : Map Text Timestamp

-- The loop of UpdateResource.
unfoldable pub alias :
    List Text → MonitoredResource → Map Text MonitoredResource → Map Text MonitoredResource
alias [] r m = m
alias (id ∷ ids) r m = alias ids r (emplace id r m)

-- The time stamp of a resource type, which only grows.
unfoldable pub collect : Text → Timestamp → Map Text Timestamp → Map Text Timestamp
collect type t m = elim (find type m) [
  | none ↦ emplace type t m
  | some old ↦ if ltb_ℤ old t then assign type t m else m
]

module _ {Num : Type 0} where
  -- The constructor with the fields.
  abbrev pub entry_of : Text → Bool → Timestamp → Timestamp → Value Num → Metadata Num
  entry_of version is_deleted created_at collected_at metadata = record {
    version = version;
    is_deleted = is_deleted;
    created_at = created_at;
    collected_at = collected_at;
    metadata = metadata;
    ignore = false;
  }

  -- Metadata::IGNORED.
  abbrev pub ignored : Metadata Num
  ignored = record {
    version = [];
    is_deleted = false;
    created_at = pos 0;
    collected_at = pos 0;
    metadata = object_of [];
    ignore = true;
  }

  -- Metadata::Clone.
  unfoldable pub clone_entry : Metadata Num → Metadata Num
  clone_entry e =
      if e.ignore
      then ignored
      else entry_of e.version e.is_deleted e.created_at e.collected_at (clone e.metadata)

  -- LookupResource.
  unfoldable pub lookup_resource : Text → MetadataStore Num → Result MonitoredResource
  lookup_resource id s = elim (find id s.resource_map) [ none ↦ raise out_of_range | some r ↦ ok r ]

  -- UpdateResource.
  unfoldable pub update_resource :
      List Text → MonitoredResource → MetadataStore Num → MetadataStore Num
  unfolding alias
  update_resource ids r s = record s { resource_map = alias ids r s.resource_map }

  -- UpdateMetadata.
  unfoldable pub update_metadata :
      MonitoredResource → Metadata Num → MetadataStore Num → MetadataStore Num
  unfolding collect
  update_metadata r e s = if e.ignore then s else record s {
    metadata_map = emplace r e (erase r s.metadata_map);
    last_collection_times = collect r.type e.collected_at s.last_collection_times;
  }

  -- The loop of GetMetadataMap.
  unfoldable pub copy_entries :
      Map MonitoredResource (Metadata Num)
      → Map MonitoredResource (Metadata Num)
      → Map MonitoredResource (Metadata Num)
  unfolding clone_entry
  copy_entries [] result = result
  copy_entries ((r, e) ∷ m) result = copy_entries m (emplace r (clone_entry e) result)

  -- GetMetadataMap, GetLastCollectionTimes.
  unfoldable pub get_metadata_map : MetadataStore Num → Map MonitoredResource (Metadata Num)
  unfolding copy_entries
  get_metadata_map s = copy_entries s.metadata_map []

  unfoldable pub get_last_collection_times : MetadataStore Num → Map Text Timestamp
  get_last_collection_times s = s.last_collection_times

  -- The loop of PurgeDeletedEntries.
  unfoldable pub live_entries :
      Map MonitoredResource (Metadata Num) → Map MonitoredResource (Metadata Num)
  live_entries [] = []
  live_entries ((r, e) ∷ m) =
      let rest = live_entries m in if e.is_deleted then rest else (r, e) ∷ rest

  -- PurgeDeletedEntries.
  unfoldable pub purge_deleted_entries : MetadataStore Num → MetadataStore Num
  unfolding live_entries
  purge_deleted_entries s = record s { metadata_map = live_entries s.metadata_map }

  -- The constructor.
  abbrev pub empty_store : MetadataStore Num
  empty_store = record { resource_map = []; metadata_map = []; last_collection_times = [] }

-- ===== src/Store/Reads.antt =====
-- What a client reads from the store after an operation.
use metadata_agent.Prelude.{
  text_ord, ltb_ℤ, Text, Bool, false, ◌||◌, Option, none, some, List, [], ◌∷◌, ◌≡◌, arith, or_else,
  if◌then◌else◌,
}
use metadata_agent.Prelude.Order.{same, same_iff}
use metadata_agent.Prelude.Map.{Map, find, emplace, erase}
use metadata_agent.Prelude.Map.Laws.{find-emplace, find-erase, find-assign}
use metadata_agent.Exceptions.{Result, ok, raise, out_of_range}
use metadata_agent.Resource.{MonitoredResource, resource_ord}
use metadata_agent.Store.{
  Timestamp, Metadata, MetadataStore, lookup_resource, alias, update_resource, collect,
  update_metadata,
}

-- The id is one of the aliases.
abbrev pub mentions : List Text → Text → Bool
mentions [] id = false
mentions (i ∷ ids) id = same i id || mentions ids id

pub find-alias :
    (id : Text) (ids : List Text) (r : MonitoredResource) (m : Map Text MonitoredResource)
    → find id (alias ids r m) ≡ or_else (find id m) (if mentions ids id then some r else none)
unfolding alias
find-alias id [] r m = ground arith
find-alias id (i ∷ ids) r m =
    ground (arith, find-alias id ids r (emplace i r m), find-emplace id i r m)

-- The later of two time stamps.
abbrev pub latest : Option Timestamp → Timestamp → Timestamp
latest none t = t
latest (some old) t = if ltb_ℤ old t then t else old

pub find-collect :
    (q type : Text) (t : Timestamp) (m : Map Text Timestamp)
    → find q (collect type t m) ≡ (if same type q then some (latest (find type m) t) else find q m)
unfolding collect
find-collect q type t m =
    ground (arith, find-emplace q type t m, find-assign q type t m, same_iff type q)

abbrev found : Option MonitoredResource → Result MonitoredResource
found none = raise out_of_range
found (some r) = ok r

module _ {Num : Type 0} where
  -- After UpdateResource an id that the store knew still means the same resource; an id that it did
  -- not know means the new one if it is among the aliases, and is else out of range.
  pub lookup_resource-update_resource :
      (id : Text) (ids : List Text) (r : MonitoredResource) (s : MetadataStore Num)
      → lookup_resource id (update_resource ids r s)
        ≡ found (or_else (find id s.resource_map) (if mentions ids id then some r else none))
  unfolding lookup_resource update_resource
  lookup_resource-update_resource id ids r s = ground (arith, find-alias id ids r s.resource_map)

  -- After UpdateMetadata with an entry that is not to be ignored, the resource has that entry and
  -- every other resource has the one it had; the resource's type has the later of its time stamp and
  -- the entry's, and every other type has the time stamp that it had; no alias changes.
  pub update_metadata_effect :
      (r q : MonitoredResource) (type : Text) (e : Metadata Num) (s : MetadataStore Num)
      → e.ignore ≡ false
      → (find q (update_metadata r e s).metadata_map
          ≡ (if same r q then some e else find q s.metadata_map))
        × (find type (update_metadata r e s).last_collection_times ≡ (
            if same r.type type
            then some (latest (find r.type s.last_collection_times) e.collected_at)
            else find type s.last_collection_times))
        × ((update_metadata r e s).resource_map ≡ s.resource_map)
  unfolding update_metadata
  update_metadata_effect r q type e s h = (
    ground (
      arith,
      find-emplace q r e (erase r s.metadata_map),
      find-erase q r s.metadata_map,
      same_iff r q,
    ),
    ground (arith, find-collect type r.type e.collected_at s.last_collection_times),
    ground arith,
  )

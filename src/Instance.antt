-- ===== src/Instance.antt =====
-- src/instance.cc: the reader of the machine's own resource.
use metadata_agent.Prelude.{
  text_ord, ℕ, Text, ◌||◌, Option, none, List, [], ◌∷◌, codes, if◌then◌else◌, is_empty, ◌≡◌, refl,
  ap, subst, arith,
}
use metadata_agent.Prelude.Order.{same_refl}
use metadata_agent.Store.Reads.{find-alias}
use metadata_agent.Prelude.Map.{find, emplace_all}
use metadata_agent.Exceptions.{Result, ok, raise, out_of_range}
use metadata_agent.Json.{Value}
use metadata_agent.Resource.{MonitoredResource}
use metadata_agent.Store.{MetadataStore, ignored, lookup_resource, update_resource, update_metadata}
use metadata_agent.Updater.{ResourceMetadata, store_results}
use metadata_agent.Environment.{Reply, Config, Environment}
use metadata_agent.Environment.Accessors.{instance_zone, instance_id, instance_resource_type}
use metadata_agent.Stateful.{Act, continue_with, ◌>>=◌, done}

abbrev list_or_empty : {A : Type 0} → Result (List A) → List A
list_or_empty (ok xs) = xs
list_or_empty (raise e) = []

list_of_ok : {A : Type 0} {xs ys : List A} → ok xs ≡ ok ys → xs ≡ ys
list_of_ok q = ap list_or_empty q

module _ {Num : Type 0} (config : Config) (server : ℕ → Text → Reply) (variable : Option Text)
    (file : Text → Option (Result (Option (Value Num)))) where
  -- InstanceResource.
  unfoldable pub instance_resource : Act Environment MonitoredResource
  unfolding instance_resource_type instance_id instance_zone
  instance_resource e =
      let type = instance_resource_type config server variable file e in
      let id = instance_id config server variable file type.1 in
      let zone = instance_zone config server variable file id.1 in
      if is_empty id.0 || is_empty zone.0 then (raise out_of_range, zone.1) else (
        ok (record {
          type = type.0;
          labels = emplace_all ((codes "instance_id", id.0) ∷ (codes "zone", zone.0) ∷ []) [];
        }),
        zone.1,
      )

  -- InstanceReader::MetadataQuery.
  unfoldable pub instance_query : Act Environment (List (ResourceMetadata Num))
  unfolding instance_resource instance_id
  instance_query = do
    resource ← instance_resource
    λ e.
        let id = instance_id config server variable file e in
        done (record { ids = [] ∷ id.0 ∷ []; resource = resource; metadata = ignored } ∷ []) id.1

  stored_of_query :
      (s : MetadataStore Num) (results : List (ResourceMetadata Num))
      (p : Result MonitoredResource × Environment)
      → find [] s.resource_map ≡ none
      → (continue_with
          (λ resource e.
            let id = instance_id config server variable file e in
            done
              (record { ids = [] ∷ id.0 ∷ []; resource = resource; metadata = ignored } ∷ [])
              id.1)
          p).0
        ≡ ok results
      → (r : MonitoredResource) × (p.0 ≡ ok r)
        × (lookup_resource [] (store_results results s) ≡ ok r)
        × ((store_results results s).metadata_map ≡ s.metadata_map)
  unfolding store_results update_metadata update_resource lookup_resource
  stored_of_query s results (raise e, e') h q = absurd (ground arith)
  stored_of_query s results (ok r, e') h q =
      let id : Text = (instance_id config server variable file e').0 in
      let stored : ResourceMetadata Num = record {
        ids = [] ∷ id ∷ [];
        resource = r;
        metadata = ignored;
      } in
      (
        r,
        refl,
        subst (λ l. lookup_resource [] (store_results l s) ≡ ok r) (list_of_ok q)
            (ground
              (arith, h, find-alias [] ([] ∷ id ∷ []) r s.resource_map, same_refl {A = Text} [])),
        subst
            (λ (l : List (ResourceMetadata Num)). (store_results l s).metadata_map ≡ s.metadata_map)
            (list_of_ok q) refl,
      )

  -- When the results of a query for the machine are stored, the empty id means the machine's resource,
  -- unless it already meant another, and the metadata stays as it was.
  pub instance_query-store_results :
      (e : Environment) (results : List (ResourceMetadata Num)) (s : MetadataStore Num)
      → (instance_query e).0 ≡ ok results
      → find [] s.resource_map ≡ none
      → (r : MonitoredResource) × ((instance_resource e).0 ≡ ok r)
        × (lookup_resource [] (store_results results s) ≡ ok r)
        × ((store_results results s).metadata_map ≡ s.metadata_map)
  unfolding instance_query
  instance_query-store_results e results s q h = stored_of_query s results (instance_resource e) h q

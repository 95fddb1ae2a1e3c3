-- ===== src/Kubernetes/Endpoints.antt =====
-- src/kubernetes.cc: what UpdateServiceToMetadataCache and UpdateServiceToPodsCache read in an object.
use metadata_agent.Prelude.{
  text_ord, Text, Bool, true, false, ◌&&◌, not, none, some, List, [], ◌∷◌, ◌++◌, codes,
  if◌then◌else◌,
}
use metadata_agent.Prelude.Order.{same}
use metadata_agent.Prelude.Map.{find, has}
use metadata_agent.Exceptions.{Result, ok, ◌>>=◌}
use metadata_agent.Json.{Value, Object, null}
use metadata_agent.Json.Access.{as_object, get_string, get_object, get_array}
use metadata_agent.Kubernetes.{ServiceKey}

module _ {Num : Type 0} where
  -- The key of a service, or of the endpoints of a service: they have the same name.
  unfoldable pub service_key : Object Num → Result ServiceKey
  unfolding get_object get_string
  service_key object = do
    metadata ← get_object (codes "metadata") object
    namespace_name ← get_string (codes "namespace") metadata
    service_name ← get_string (codes "name") metadata
    ok (namespace_name, service_name)

  -- The pod that a reference names.
  unfoldable pub pod_of_ref : Object Num → Result (List Text)
  unfolding get_string
  pod_of_ref ref =
      if has (codes "kind") ref && has (codes "name") ref
      then (do
        target_kind ← get_string (codes "kind") ref
        if not (same target_kind (codes "Pod"))
            then ok []
            else (do pod_name ← get_string (codes "name") ref; ok (pod_name ∷ [])))
      else ok []

  unfoldable pub pod_of_address : Value Num → Result (List Text)
  unfolding as_object get_object pod_of_ref
  pod_of_address address = do
    address_obj ← as_object address
    if has (codes "targetRef") address_obj
        then (do ref ← get_object (codes "targetRef") address_obj; pod_of_ref ref)
        else ok []

  -- The names that a loop over the elements of an array collects.
  unfoldable pub collect_names :
      (Value Num → Result (List Text)) → List (Value Num) → Result (List Text)
  collect_names f [] = ok []
  collect_names f (x ∷ xs) = do names ← f x; others ← collect_names f xs; ok (names ++ others)

  unfoldable pub pods_of_subset : Value Num → Result (List Text)
  unfolding as_object get_array collect_names pod_of_address
  pods_of_subset subset = do
    subset_obj ← as_object subset
    if has (codes "addresses") subset_obj
        then (do
          addresses ← get_array (codes "addresses") subset_obj
          collect_names pod_of_address addresses)
        else ok []

  -- There are subsets and they are not null.
  abbrev pub has_subsets : Object Num → Bool
  has_subsets endpoints = elim (find (codes "subsets") endpoints) [
    | none ↦ false
    | some null ↦ false
    | some v ↦ true
  ]

  -- The names of the pods behind a service.
  unfoldable pub pod_names_of : Object Num → Bool → Result (List Text)
  unfolding get_array collect_names pods_of_subset
  pod_names_of endpoints is_deleted =
      if not is_deleted && has_subsets endpoints
      then (do
        subsets ← get_array (codes "subsets") endpoints
        collect_names pods_of_subset subsets)
      else ok []

-- ===== src/Kubernetes/Objects.antt =====
-- src/kubernetes.cc: what the reader takes from the master's objects when it looks for owners.
use metadata_agent.Prelude.{
  text_ord, Text, Bool, false, Option, none, some, List, [], ◌∷◌, codes, if◌then◌else◌, is_some,
  position, join,
}
use metadata_agent.Prelude.Map.{Map, has, emplace}
use metadata_agent.Exceptions.{
  Result, ok, raise, ◌>>=◌, json_exception, query_exception, non_retriable_error,
}
use metadata_agent.Json.{Value, Object}
use metadata_agent.Json.Access.{as_object, get_string, get_object, get_array, get_boolean}
use metadata_agent.Stateful.{deref}

-- No kinds after an exception that KindPath handles.
abbrev pub or_no_kinds : Result (Map Text Text) → Result (Map Text Text)
or_no_kinds (raise query_exception) = ok []
or_no_kinds (raise non_retriable_error) = ok []
or_no_kinds (raise (json_exception x)) = ok []
or_no_kinds r = r

module _ {Num : Type 0} where
  -- An element of an API list: a name with a slash is passed over.
  unfoldable pub add_kind : Map Text Text → Value Num → Result (Map Text Text)
  unfolding as_object get_string position emplace
  add_kind kinds element = do
    resource ← as_object element
    name ← get_string (codes "name") resource
    if is_some (position (codes "/") name)
        then ok kinds
        else (do kind ← get_string (codes "kind") resource; ok (emplace kind name kinds))

  -- The loop over the list, which an exception ends with what there is.
  unfoldable pub add_kinds : Map Text Text → List (Value Num) → Map Text Text
  unfolding add_kind
  add_kinds kinds [] = kinds
  add_kinds kinds (element ∷ elements) = elim (add_kind kinds element) [
    | ok kinds' ↦ add_kinds kinds' elements
    | raise e ↦ kinds
  ]

  -- The kinds of a reply: none if the query failed or its object is no list.
  unfoldable pub kinds_of : Result (Option (Value Num)) → Result (Map Text Text)
  unfolding as_object get_array add_kinds
  kinds_of reply = do
    response ← reply
    apilist_response ← deref response
    apilist ← as_object apilist_response
    api_list ← get_array (codes "resources") apilist
    ok (add_kinds [] api_list)

  -- metadata.uid of an object.
  unfoldable pub uid_of : Value Num → Result Text
  unfolding as_object get_object get_string
  uid_of v = do
    obj ← as_object v
    metadata ← get_object (codes "metadata") obj
    get_string (codes "uid") metadata

  -- A reference is the controller's if it says so.
  unfoldable pub is_controller : Object Num → Result Bool
  unfolding get_boolean
  is_controller ref =
      if has (codes "controller") ref then get_boolean (codes "controller") ref else ok false

  -- The first controller's reference.
  unfoldable pub first_controller : List (Value Num) → Result (Option (Object Num))
  unfolding as_object is_controller
  first_controller [] = ok none
  first_controller (ref ∷ refs) =
      let rest = first_controller refs in
      as_object ref >>= λ ref_obj.
      is_controller ref_obj >>= λ found. if found then ok (some ref_obj) else rest

  -- The reference to the controller of an object, if it has one.
  unfoldable pub controller_of : Value Num → Result (Option (Object Num))
  unfolding as_object get_object get_array first_controller
  controller_of v = do
    obj ← as_object v
    metadata ← get_object (codes "metadata") obj
    if has (codes "ownerReferences") metadata
        then (do refs ← get_array (codes "ownerReferences") metadata; first_controller refs)
        else ok none

-- The fields of an owner reference.
pub record OwnerRef : Type 0 where
  pub api_version : Text
  pub kind : Text
  pub name : Text
  pub uid : Text

unfoldable pub owner_ref_of : {Num : Type 0} → Object Num → Result OwnerRef
unfolding get_string
owner_ref_of owner_ref = do
  api_version ← get_string (codes "apiVersion") owner_ref
  kind ← get_string (codes "kind") owner_ref
  name ← get_string (codes "name") owner_ref
  uid ← get_string (codes "uid") owner_ref
  ok (record { api_version = api_version; kind = kind; name = name; uid = uid })

-- The key by which an owner is kept.
abbrev pub encoded_ref : OwnerRef → Text
encoded_ref ref = join (codes "/") (ref.api_version ∷ ref.kind ∷ ref.uid ∷ [])

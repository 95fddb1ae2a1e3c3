-- ===== src/Kubernetes/Owners.antt =====
-- src/kubernetes.cc: KindPath, GetOwner and FindTopLevelController, by which the reader finds what
-- controls a pod.
use metadata_agent.Prelude.{
  text_ord, ℕ, zero, suc, Text, Option, none, some, [], ◌++◌, codes, if◌then◌else◌, is_some,
  position,
}
use metadata_agent.Prelude.Order.{same}
use metadata_agent.Prelude.Map.{Map, find, emplace}
use metadata_agent.Exceptions.{Result, ok, raise, query_exception, unknown_kind, stack_overflow}
use metadata_agent.Json.{Value, Object}
use metadata_agent.Json.Clone.{clone}
use metadata_agent.Stateful.{◌>>=◌, done, lift, deref}
use metadata_agent.Kubernetes.{World, KubernetesReader, Reader, query_master}
use metadata_agent.Kubernetes.Objects.{
  kinds_of, or_no_kinds, uid_of, controller_of, OwnerRef, owner_ref_of, encoded_ref,
}

-- The path of an API's version.
unfoldable pub version_path : Text → Text
unfolding position
version_path version =
    (if is_some (position (codes "/") version) then codes "/apis" else codes "/api")
    ++ (codes "/" ++ version)

module _ {Num : Type 0} (w : World Num) where
  -- The kinds of a version are asked for once: the map is entered before the query, and stays empty if
  -- that fails.
  abbrev pub keep_kinds :
      Text
      → Result (Map Text Text) × KubernetesReader Num
      → Result (Map Text Text) × KubernetesReader Num
  keep_kinds version (ok kinds, r) = (
    ok kinds,
    record r { version_to_kind_to_name = emplace version kinds r.version_to_kind_to_name },
  )
  keep_kinds version (raise e, r) =
      (raise e, record r { version_to_kind_to_name = emplace version [] r.version_to_kind_to_name })

  unfoldable pub kinds_of_version : Text → Reader w (Map Text Text)
  unfolding query_master kinds_of version_path find emplace
  kinds_of_version version r =
      let asked = query_master w (version_path version) r in
      elim (find version r.version_to_kind_to_name) [
        | some kinds ↦ (ok kinds, r)
        | none ↦ keep_kinds version (or_no_kinds (kinds_of asked.0), asked.1)
      ]

  abbrev pub name_of_kind : Text → Text → Option Text → Result (Text × Text)
  name_of_kind version kind none = raise (unknown_kind kind)
  name_of_kind version kind (some name) = ok (version_path version, name)

  -- KindPath.
  unfoldable pub kind_path : Text → Text → Reader w (Text × Text)
  unfolding kinds_of_version version_path find
  kind_path version kind = do
    kinds ← kinds_of_version version
    lift (name_of_kind version kind (find kind kinds))

  -- The owner has to be the one that was referred to, and is kept then.
  abbrev pub keep_owner : OwnerRef → Value Num → Reader w (Value Num)
  keep_owner ref owner r =
      (ok owner, record r { owners = emplace (encoded_ref ref) owner r.owners })

  abbrev pub check_owner : OwnerRef → Value Num → Text → Reader w (Value Num)
  check_owner ref owner uid =
      if same uid ref.uid then keep_owner ref owner else lift (raise query_exception)

  -- The sanity check of GetOwner on what the master replied.
  unfoldable pub accept_owner : OwnerRef → Option (Value Num) → Reader w (Value Num)
  unfolding uid_of
  accept_owner ref response = do
    owner ← lift (deref response)
    uid ← lift (uid_of owner)
    check_owner ref owner uid

  -- GetOwner for an owner that is not kept yet.
  unfoldable pub fetch_owner : Text → OwnerRef → Text × Text → Reader w (Value Num)
  unfolding query_master accept_owner
  fetch_owner ns ref path = do
    response ←
        query_master w
          (path.0 ++ codes "/namespaces/" ++ ns ++ codes "/" ++ path.1 ++ codes "/" ++ ref.name)
    accept_owner ref response

  unfoldable pub query_owner : Text → OwnerRef → Reader w (Value Num)
  unfolding kind_path fetch_owner
  query_owner ns ref = do path ← kind_path ref.api_version ref.kind; fetch_owner ns ref path

  -- GetOwner.
  unfoldable pub owner_of_ref : Text → OwnerRef → Reader w (Value Num)
  unfolding query_owner find
  owner_of_ref ns ref r = elim (find (encoded_ref ref) r.owners) [
    | some owner ↦ (ok owner, r)
    | none ↦ query_owner ns ref r
  ]

  unfoldable pub get_owner : Text → Object Num → Reader w (Value Num)
  unfolding owner_of_ref owner_ref_of clone
  get_owner ns owner_ref = do
    ref ← lift (owner_ref_of owner_ref)
    owner ← owner_of_ref ns ref
    done (clone owner)

  -- FindTopLevelController, with a recursion as deep as the fuel.
  abbrev pub go_on :
      (Value Num → Reader w (Value Num))
      → (Object Num → Reader w (Value Num))
      → Value Num
      → Option (Object Num)
      → Reader w (Value Num)
  go_on further owner v none = done v
  go_on further owner v (some ref) = do next ← owner ref; further next

  unfoldable pub find_top_level_controller : ℕ → Text → Value Num → Reader w (Value Num)
  unfolding controller_of get_owner
  find_top_level_controller zero ns v = lift (raise stack_overflow)
  find_top_level_controller (suc depth) ns v = do
    controller ← lift (controller_of v)
    go_on (find_top_level_controller depth ns) (get_owner ns) v controller

-- ===== src/Kubernetes/KindsKept.antt =====
-- The kinds of src/kubernetes.cc that are known stay as they are.
use metadata_agent.Prelude.{
  text_ord, Text, Option, some, List, [], ◌∷◌, ◌≡◌, ap, ◌∙◌, ◌++◌, codes, arith,
}
use metadata_agent.Prelude.Map.{Map, find, emplace}
use metadata_agent.Prelude.Map.Laws.{find-emplace}
use metadata_agent.Exceptions.{Result, ok, raise}
use metadata_agent.Json.{Value, Object}
use metadata_agent.Stateful.{continue_with, deref}
use metadata_agent.Kubernetes.{World, KubernetesReader, Reader, query_master, api_token}
use metadata_agent.Kubernetes.Objects.{kinds_of, or_no_kinds, OwnerRef, owner_ref_of, uid_of}
use metadata_agent.Kubernetes.Owners.{
  version_path, keep_kinds, kinds_of_version, kind_path, check_owner, accept_owner, fetch_owner,
  query_owner, owner_of_ref, get_owner,
}

-- Calls of the reader by which owners are found.
pub data OwnerCall (Num : Type 0) : Type 0 where
  of_query : Text → OwnerCall Num
  of_kind : Text → Text → OwnerCall Num
  of_owner : Text → Object Num → OwnerCall Num

module _ {Num : Type 0} (w : World Num) where
  -- The state after some calls, whatever they return or throw.
  abbrev pub after : List (OwnerCall Num) → KubernetesReader Num → KubernetesReader Num
  after [] r = r
  after (of_query path ∷ calls) r = after calls (query_master w path r).1
  after (of_kind version kind ∷ calls) r = after calls (kind_path w version kind r).1
  after (of_owner ns ref ∷ calls) r = after calls (get_owner w ns ref r).1

  -- A query leaves the kinds alone.
  pub query_master-kinds :
      (path : Text) (r : KubernetesReader Num)
      → (query_master w path r).1.version_to_kind_to_name ≡ r.version_to_kind_to_name
  unfolding query_master api_token
  query_master-kinds path r = ground arith

  -- The kinds of a version that are known.
  abbrev pub Known : Text → Map Text Text → KubernetesReader Num → Type 0
  Known version kinds r = find version r.version_to_kind_to_name ≡ some kinds

  Known-emplace :
      (version other : Text) (kinds new : Map Text Text) (r : KubernetesReader Num)
      → Known version kinds r
      → find version (emplace other new r.version_to_kind_to_name) ≡ some kinds
  Known-emplace version other kinds new r h =
      ground (arith, h, find-emplace version other new r.version_to_kind_to_name)

  Known-continue_with :
      {A B : Type 0} (version : Text) (kinds : Map Text Text) (f : A → Reader w B)
      (p : Result A × KubernetesReader Num)
      → Known version kinds p.1
      → ((a : A) (s : KubernetesReader Num) → Known version kinds s → Known version kinds (f a s).1)
      → Known version kinds (continue_with f p).1
  Known-continue_with version kinds f (ok a, s) h k = k a s h
  Known-continue_with version kinds f (raise e, s) h k = h

  module _ (version : Text) (kinds : Map Text Text) where
    abbrev Same : KubernetesReader Num → Type 0
    Same r = Known version kinds r

    query_master-Known :
        (path : Text) (r : KubernetesReader Num) → Same r → Same (query_master w path r).1
    query_master-Known path r h = ap (find version) (query_master-kinds path r) ∙ h

    keep_kinds-Known :
        (other : Text) (p : Result (Map Text Text) × KubernetesReader Num)
        → Same p.1
        → Same (keep_kinds w other p).1
    keep_kinds-Known other (ok new, r) h = Known-emplace version other kinds new r h
    keep_kinds-Known other (raise e, r) h = Known-emplace version other kinds [] r h

    kinds_of_version-Known :
        (other : Text) (r : KubernetesReader Num) → Same r → Same (kinds_of_version w other r).1
    unfolding kinds_of_version
    kinds_of_version-Known other r h =
        let asked = query_master w (version_path other) r in
        ground (
          arith,
          keep_kinds-Known other (or_no_kinds (kinds_of asked.0), asked.1)
              (query_master-Known (version_path other) r h),
        )

    kind_path-Known :
        (other kind : Text) (r : KubernetesReader Num) → Same r → Same (kind_path w other kind r).1
    unfolding kind_path
    kind_path-Known other kind r h =
        Known-continue_with version kinds _ (kinds_of_version w other r)
          (kinds_of_version-Known other r h) (λ found s k. k)

    check_owner-Known :
        (ref : OwnerRef) (owner : Value Num) (uid : Text) (r : KubernetesReader Num)
        → Same r
        → Same (check_owner w ref owner uid r).1
    check_owner-Known ref owner uid r h = ground arith

    accept_owner-Known :
        (ref : OwnerRef) (response : Option (Value Num)) (r : KubernetesReader Num)
        → Same r
        → Same (accept_owner w ref response r).1
    unfolding accept_owner
    accept_owner-Known ref response r h =
        Known-continue_with version kinds _ (deref response, r) h
          (λ owner s k.
            Known-continue_with version kinds _ (uid_of owner, s) k
              (λ uid t l. check_owner-Known ref owner uid t l))

    fetch_owner-Known :
        (ns : Text) (ref : OwnerRef) (path : Text × Text) (r : KubernetesReader Num)
        → Same r
        → Same (fetch_owner w ns ref path r).1
    unfolding fetch_owner
    fetch_owner-Known ns ref path r h =
        let owner_path =
          path.0 ++ codes "/namespaces/" ++ ns ++ codes "/" ++ path.1 ++ codes "/" ++ ref.name in
        Known-continue_with version kinds (accept_owner w ref) (query_master w owner_path r)
          (query_master-Known owner_path r h) (accept_owner-Known ref)

    query_owner-Known :
        (ns : Text) (ref : OwnerRef) (r : KubernetesReader Num)
        → Same r
        → Same (query_owner w ns ref r).1
    unfolding query_owner
    query_owner-Known ns ref r h =
        Known-continue_with version kinds (fetch_owner w ns ref)
          (kind_path w ref.api_version ref.kind r) (kind_path-Known ref.api_version ref.kind r h)
          (fetch_owner-Known ns ref)

    owner_of_ref-Known :
        (ns : Text) (ref : OwnerRef) (r : KubernetesReader Num)
        → Same r
        → Same (owner_of_ref w ns ref r).1
    unfolding owner_of_ref
    owner_of_ref-Known ns ref r h = ground (arith, query_owner-Known ns ref r h)

    get_owner-Known :
        (ns : Text) (ref : Object Num) (r : KubernetesReader Num)
        → Same r
        → Same (get_owner w ns ref r).1
    unfolding get_owner
    get_owner-Known ns ref r h =
        Known-continue_with version kinds _ (owner_ref_of ref, r) h
          (λ owner_ref s k.
            Known-continue_with version kinds _ (owner_of_ref w ns owner_ref s)
              (owner_of_ref-Known ns owner_ref s k) (λ owner t l. l))

    pub after-Known :
        (calls : List (OwnerCall Num)) (r : KubernetesReader Num) → Same r → Same (after calls r)
    after-Known [] r h = h
    after-Known (of_query path ∷ calls) r h = after-Known calls _ (query_master-Known path r h)
    after-Known (of_kind other kind ∷ calls) r h =
        after-Known calls _ (kind_path-Known other kind r h)
    after-Known (of_owner ns ref ∷ calls) r h = after-Known calls _ (get_owner-Known ns ref r h)

-- ===== src/Kubernetes/OwnerCache.antt =====
-- The owners that GetOwner of src/kubernetes.cc keeps are those that were referred to.
use metadata_agent.Prelude.{
  text_ord, ℕ, Text, true, Option, none, some, [], ◌∷◌, ◌++◌, codes, ◌≡◌, refl, sym, ◌∙◌, ap, subst,
  arith, Option-cases, Bool-cases, inl, inr, is_some, position, starts_with, append_assoc,
}
use metadata_agent.Prelude.Order.{same, same_iff, same_refl, nat_ord}
use metadata_agent.Prelude.Map.{Map, find, emplace}
use metadata_agent.Prelude.Map.Laws.{find-emplace}
use metadata_agent.Exceptions.{Result, ok, raise}
use metadata_agent.Json.{Value}
use metadata_agent.Environment.{after_last}
use metadata_agent.Stateful.{
  continue_with, Ends, Ends-continue_with, Ends-of_state, state_of_Ends, state-lift,
}
use metadata_agent.Kubernetes.{World, KubernetesReader, query_master, api_token}
use metadata_agent.Kubernetes.Objects.{uid_of, OwnerRef, encoded_ref, kinds_of, or_no_kinds}
use metadata_agent.Kubernetes.Owners.{
  version_path, keep_kinds, kinds_of_version, name_of_kind, kind_path, check_owner, accept_owner,
  fetch_owner, query_owner, owner_of_ref,
}

-- What stands behind the last slash of a key is the uid, if that has no slash.
position-append_byte : (b : ℕ) (x y : Text) → is_some (position (b ∷ []) (x ++ (b ∷ y))) ≡ true
unfolding position starts_with
position-append_byte b [] y = ground (arith, same_refl b)
position-append_byte b (c ∷ x) y = ground (arith, position-append_byte b x y)

after_last-append :
    (b : ℕ) (x y : Text) → position (b ∷ []) y ≡ none → after_last b (x ++ (b ∷ y)) ≡ y
unfolding after_last
after_last-append b [] y h = ground (arith, h, same_refl b)
after_last-append b (c ∷ x) y h =
    ground (arith, position-append_byte b x y, after_last-append b x y h)

after_last-encoded_ref :
    (ref : OwnerRef)
    → position (codes "/") ref.uid ≡ none
    → after_last 47 (encoded_ref ref) ≡ ref.uid
unfolding codes
after_last-encoded_ref ref h =
    ap (after_last 47) (sym (append_assoc ref.api_version (47 ∷ ref.kind) (47 ∷ ref.uid)))
    ∙ after_last-append 47 (ref.api_version ++ (47 ∷ ref.kind)) ref.uid h

module _ {Num : Type 0} where
  -- Every owner that is kept has the uid that its key ends in.
  abbrev pub OwnersMatch : Map Text (Value Num) → Type 0
  OwnersMatch owners =
      (key : Text) (owner : Value Num)
      → find key owners ≡ some owner
      → uid_of owner ≡ ok (after_last 47 key)

  OwnersMatch-emplace :
      (key : Text) (owner : Value Num) (owners : Map Text (Value Num))
      → OwnersMatch owners
      → uid_of owner ≡ ok (after_last 47 key)
      → OwnersMatch (emplace key owner owners)
  OwnersMatch-emplace key owner owners h u key' owner' f = elim (Option-cases (find key' owners)) [
    | inr (old, q) ↦ ground (arith, f, q, h key' old q, find-emplace key' key owner owners)
    | inl q ↦ ground (arith, f, q, u, find-emplace key' key owner owners, same_iff key key')
  ]

module _ {Num : Type 0} (w : World Num) where
  -- Neither a query nor the search for a kind's path touches the owners.
  query_master-owners :
      (path : Text) (r : KubernetesReader Num) → (query_master w path r).1.owners ≡ r.owners
  unfolding query_master api_token
  query_master-owners path r = ground arith

  keep_kinds-owners :
      (version : Text) (p : Result (Map Text Text) × KubernetesReader Num)
      → (keep_kinds w version p).1.owners ≡ p.1.owners
  keep_kinds-owners version (ok kinds, r) = refl
  keep_kinds-owners version (raise e, r) = refl

  kinds_of_version-owners :
      (version : Text) (r : KubernetesReader Num)
      → (kinds_of_version w version r).1.owners ≡ r.owners
  unfolding kinds_of_version
  kinds_of_version-owners version r = ground (
    arith,
    query_master-owners (version_path version) r,
    (let asked = query_master w (version_path version) r in
        keep_kinds-owners version (or_no_kinds (kinds_of asked.0), asked.1)),
  )

  kind_path-owners :
      (version kind : Text) (r : KubernetesReader Num)
      → (kind_path w version kind r).1.owners ≡ r.owners
  unfolding kind_path find
  kind_path-owners version kind r =
      ap (λ s. s.owners)
        (state-lift (λ kinds. name_of_kind w version kind (find kind kinds))
          (kinds_of_version w version r))
      ∙ kinds_of_version-owners version r

  abbrev Matching : KubernetesReader Num → Type 0
  Matching r = OwnersMatch r.owners

  abbrev Owned : OwnerRef → Value Num → KubernetesReader Num → Type 0
  Owned ref v r = (uid_of v ≡ ok ref.uid) × Matching r

  Ends-check_owner :
      (ref : OwnerRef) (owner : Value Num) (uid : Text) (r : KubernetesReader Num)
      → position (codes "/") ref.uid ≡ none
      → uid_of owner ≡ ok uid
      → Matching r
      → Ends (Owned ref) (λ e s. Matching s) (check_owner w ref owner uid r)
  Ends-check_owner ref owner uid r slash u m = elim (Bool-cases (same uid ref.uid)) [
    | inl same_uid ↦
        let u' : uid_of owner ≡ ok ref.uid = u ∙ ap ok ((same_iff uid ref.uid).0 same_uid) in
        rw same_uid (
          u',
          OwnersMatch-emplace (encoded_ref ref) owner r.owners m
              (u' ∙ ap ok (sym (after_last-encoded_ref ref slash))),
        )
    | inr other_uid ↦ rw other_uid m
  ]

  Ends-uid :
      (ref : OwnerRef) (owner : Value Num) (uid : Result Text) (r : KubernetesReader Num)
      → position (codes "/") ref.uid ≡ none
      → uid_of owner ≡ uid
      → Matching r
      → Ends (Owned ref) (λ e s. Matching s) (continue_with (check_owner w ref owner) (uid, r))
  Ends-uid ref owner (ok uid) r slash u m = Ends-check_owner ref owner uid r slash u m
  Ends-uid ref owner (raise e) r slash u m = m

  Ends-accept_owner :
      (ref : OwnerRef) (response : Option (Value Num)) (r : KubernetesReader Num)
      → position (codes "/") ref.uid ≡ none
      → Matching r
      → Ends (Owned ref) (λ e s. Matching s) (accept_owner w ref response r)
  unfolding accept_owner
  Ends-accept_owner ref none r slash m = m
  Ends-accept_owner ref (some owner) r slash m = Ends-uid ref owner (uid_of owner) r slash refl m

  Ends-fetch_owner :
      (ns : Text) (ref : OwnerRef) (path : Text × Text) (r : KubernetesReader Num)
      → position (codes "/") ref.uid ≡ none
      → Matching r
      → Ends (Owned ref) (λ e s. Matching s) (fetch_owner w ns ref path r)
  unfolding fetch_owner
  Ends-fetch_owner ns ref path r slash m =
      let full : Text =
        path.0 ++ codes "/namespaces/" ++ ns ++ codes "/" ++ path.1 ++ codes "/" ++ ref.name in
      Ends-continue_with (λ response s. Matching s) (Owned ref) (λ e s. Matching s)
        (accept_owner w ref) (query_master w full r)
        (Ends-of_state Matching (query_master w full r)
          (subst OwnersMatch (sym (query_master-owners full r)) m))
        (λ response s m'. Ends-accept_owner ref response s slash m')

  Ends-query_owner :
      (ns : Text) (ref : OwnerRef) (r : KubernetesReader Num)
      → position (codes "/") ref.uid ≡ none
      → Matching r
      → Ends (Owned ref) (λ e s. Matching s) (query_owner w ns ref r)
  unfolding query_owner
  Ends-query_owner ns ref r slash m =
      Ends-continue_with (λ path s. Matching s) (Owned ref) (λ e s. Matching s)
        (fetch_owner w ns ref) (kind_path w ref.api_version ref.kind r)
        (Ends-of_state Matching (kind_path w ref.api_version ref.kind r)
          (subst OwnersMatch (sym (kind_path-owners ref.api_version ref.kind r)) m))
        (λ path s m'. Ends-fetch_owner ns ref path s slash m')

  Ends-owner_of_ref :
      (ns : Text) (ref : OwnerRef) (r : KubernetesReader Num)
      → position (codes "/") ref.uid ≡ none
      → Matching r
      → Ends (Owned ref) (λ e s. Matching s) (owner_of_ref w ns ref r)
  unfolding owner_of_ref
  Ends-owner_of_ref ns ref r slash m = elim (Option-cases (find (encoded_ref ref) r.owners)) [
    | inl q ↦
        let same_query : owner_of_ref w ns ref r ≡ query_owner w ns ref r = ground (arith, q) in
        subst (Ends (Owned ref) (λ e s. Matching s)) (sym same_query)
          (Ends-query_owner ns ref r slash m)
    | inr (owner, q) ↦
        let kept : owner_of_ref w ns ref r ≡ (ok owner, r) = ground (arith, q) in
        subst (Ends (Owned ref) (λ e s. Matching s)) (sym kept)
          (m (encoded_ref ref) owner q ∙ ap ok (after_last-encoded_ref ref slash), m)
  ]

  -- The owners that are kept have the uids by which they are kept, also after a reference was followed
  -- whose uid has no slash; and what is returned for that reference, from the cache or from the master,
  -- has its uid.
  pub owner_of_ref-OwnersMatch :
      (ns : Text) (ref : OwnerRef) (r : KubernetesReader Num)
      → position (codes "/") ref.uid ≡ none
      → OwnersMatch r.owners
      → OwnersMatch (owner_of_ref w ns ref r).1.owners
        × ((v : Value Num) → (owner_of_ref w ns ref r).0 ≡ ok v → uid_of v ≡ ok ref.uid)
  owner_of_ref-OwnersMatch ns ref r slash m =
      state_of_Ends (λ v. uid_of v ≡ ok ref.uid) Matching (owner_of_ref w ns ref r)
        (Ends-owner_of_ref ns ref r slash m)

-- ===== src/Tests/Kubernetes/Chains.antt =====
-- A search that the depth of the stack does not cut off: one owner is known, which has none, and the master
-- cannot be reached.
use metadata_agent.Prelude.{
  text_ord, ℕ, ℤ, Text, Option, some, [], ◌∷◌, codes, ◌≡◌, refl, subst, ap, arith, sym, ◌∙◌,
  Option-cases, inl, inr,
}
use metadata_agent.Prelude.Order.{same, list_lt}
use metadata_agent.Prelude.Map.{Map, find, insert_sorted, emplace}
use metadata_agent.Exceptions.{Result, ok, raise}
use metadata_agent.Json.{Value, Object, elements, entries, to_fields, to_items}
use metadata_agent.Json.Clone.{clone}
use metadata_agent.Json.Access.{as_object, get_object, get_array, get_boolean}
use metadata_agent.Stateful.{lift, Returns, Returns-continue_with, Returns-then}
use metadata_agent.Kubernetes.{KubernetesReader, query_master, master_result}
use metadata_agent.Kubernetes.Objects.{
  first_controller, is_controller, controller_of, owner_ref_of, OwnerRef, encoded_ref,
}
use metadata_agent.Kubernetes.Owners.{
  kind_path, fetch_owner, query_owner, owner_of_ref, get_owner, find_top_level_controller,
}
use metadata_agent.Kubernetes.Chains.{Falls, Climbs, find_top_level_controller-Climbs}
use metadata_agent.Tests.Kubernetes.{object_with, controlled_by, pod, silent, fresh}

abbrev one_owner : Map Text (Value ℤ)
one_owner = (codes "v/K/a", object_with pod) ∷ []

abbrev Reached : KubernetesReader ℤ → Type 0
Reached r = r.owners ≡ one_owner

abbrev rank_of : Result (Option (Object ℤ)) → ℕ
rank_of (ok (some ref)) = 1
rank_of _ = 0

abbrev rank : Value ℤ → ℕ
rank v = rank_of (controller_of v)

abbrev IsLast : Value ℤ → KubernetesReader ℤ → Type 0
IsLast v r = (rank (clone v) ≡ 0) × Reached r

query_owner-IsLast :
    (ref : OwnerRef) (r : KubernetesReader ℤ) → Returns IsLast (query_owner silent [] ref r)
unfolding query_owner fetch_owner query_master master_result
query_owner-IsLast ref r =
    Returns-continue_with IsLast _ (kind_path silent ref.api_version ref.kind r) (λ path s. tt)

one_owner_only : (key : Text) (v : Value ℤ) → find key one_owner ≡ some v → v ≡ object_with pod
unfolding find
one_owner_only key v h = ground (arith, h)

rank-pod : rank (clone (object_with pod)) ≡ 0
unfolding controller_of clone as_object get_object entries to_fields find same list_lt codes
    insert_sorted emplace
rank-pod = refl

owner_of_ref-IsLast :
    (ref : OwnerRef) (r : KubernetesReader ℤ)
    → Reached r
    → Returns IsLast (owner_of_ref silent [] ref r)
unfolding owner_of_ref
owner_of_ref-IsLast ref r i = elim (Option-cases (find (encoded_ref ref) r.owners)) [
  | inl q ↦
      let asked : owner_of_ref silent [] ref r ≡ query_owner silent [] ref r = ground (arith, q) in
      subst (Returns IsLast) (sym asked) (query_owner-IsLast ref r)
  | inr (v, q) ↦
      let kept : owner_of_ref silent [] ref r ≡ (ok v, r) = ground (arith, q) in
      let e : v ≡ object_with pod =
        one_owner_only (encoded_ref ref) v (subst (λ m. find (encoded_ref ref) m ≡ some v) i q) in
      subst (Returns IsLast) (sym kept) (ap (λ x. rank (clone x)) e ∙ rank-pod, i)
]

-- What a read of the reference changes nothing of.
reads :
    {A : Type 0} (x : Result A) (r : KubernetesReader ℤ)
    → Reached r
    → Returns (λ a s. Reached s) (lift x r)
reads (ok a) r i = i
reads (raise e) r i = tt

get_owner-rank :
    (ref : Object ℤ) (r : KubernetesReader ℤ)
    → Reached r
    → Returns (λ v s. (rank v ≡ 0) × Reached s) (get_owner silent [] ref r)
unfolding get_owner
get_owner-rank ref r i =
    let P : Value ℤ → KubernetesReader ℤ → Type 0 = λ v s. (rank v ≡ 0) × Reached s in
    Returns-then (λ a s. Reached s) P _ (lift (owner_ref_of ref) r) (reads (owner_ref_of ref) r i)
      (λ oref s j.
        Returns-then IsLast P _ (owner_of_ref silent [] oref s) (owner_of_ref-IsLast oref s j)
          (λ v s' last. last))

rank-Falls : Falls silent Reached rank []
rank-Falls v owner ref r r' i c o =
    let (low, j) = subst (Returns (λ x s. (rank x ≡ 0) × Reached s)) o (get_owner-rank ref r i) in
    (ground (arith, low, ap rank_of c), j)

find_top_level_controller-Climbs_example :
    Climbs silent []
      (controlled_by (codes "a"))
      (record fresh { owners = one_owner })
      (find_top_level_controller silent 2 []
        (controlled_by (codes "a"))
        (record fresh { owners = one_owner }))
unfolding controller_of first_controller is_controller as_object get_object get_array get_boolean
    entries to_fields to_items elements find same list_lt codes insert_sorted
find_top_level_controller-Climbs_example =
    find_top_level_controller-Climbs silent Reached rank [] rank-Falls 2 (controlled_by (codes "a"))
      (record fresh { owners = one_owner }) refl (omega arith)

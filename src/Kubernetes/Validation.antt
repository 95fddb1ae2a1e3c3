-- ===== src/Kubernetes/Validation.antt =====
-- src/kubernetes.cc: KubernetesReader::ValidateDynamicConfiguration.
use metadata_agent.Prelude.{
  text_ord, ℕ, zero, suc, pos, Text, [], ◌∷◌, Option, none, some, ◌++◌, codes, if◌then◌else◌,
  is_empty, ◌≡◌, refl, ◌∙◌, ap,
}
use metadata_agent.Exceptions.{Result, ok, raise, Exception, thrown_pointer}
use metadata_agent.Json.{Value}
use metadata_agent.Retry.{
  validation_of, Judged, validation_of-Judged, Ending, retry, IsRight, retry-IsRight,
}
use metadata_agent.Kubernetes.{World, KubernetesReader, endpoint_path, query_master, current_node}
use metadata_agent.Kubernetes.Query.{label_selector}

-- How the validation comes out, with the state after it; `none` would be that it did not end.
abbrev pub Validated : Type 0 → Type 0
Validated Num = Result (Unit {0}) × KubernetesReader Num

-- The reader must know the node that it runs on. The code throws a pointer to the error.
abbrev pub node_known : {Num : Type 0} → Result Text × KubernetesReader Num → Validated Num
node_known (ok node, r) = if is_empty node then (raise thrown_pointer, r) else (ok tt, r)
node_known (raise e, r) = (raise e, r)

abbrev pub if_valid :
    {Num : Type 0}
    → (KubernetesReader Num → Option (Validated Num))
    → Option (Validated Num)
    → Option (Validated Num)
if_valid next none = none
if_valid next (some (ok u, r)) = next r
if_valid next (some (raise e, r)) = some (raise e, r)

module _ {Num : Type 0} (w : World Num) where
  -- The state after some queries of the same path.
  unfoldable pub queried : Text → ℕ → KubernetesReader Num → KubernetesReader Num
  unfolding query_master
  queried path zero r = r
  queried path (suc n) r = (query_master w path (queried path n r)).1

  -- The outcome of one query after some others.
  abbrev pub validation_query : Text → KubernetesReader Num → ℕ → Result (Option (Value Num))
  validation_query path r n = (query_master w path (queried path n r)).0

  unfoldable pub validate_path : Text → KubernetesReader Num → Option (Validated Num)
  unfolding retry queried query_master
  validate_path path r = elim (retry (validation_query path r) (pos 10)) [
    | none ↦ none
    | some e ↦ some (validation_of e.result, queried path e.calls r)
  ]

  abbrev pub nodes_path : Text
  nodes_path = endpoint_path ++ codes "/nodes?limit=1"

  abbrev pub pods_path : Text
  pods_path = endpoint_path ++ codes "/pods?limit=1" ++ label_selector w

  -- ValidateDynamicConfiguration.
  unfoldable pub validate_kubernetes : KubernetesReader Num → Option (Validated Num)
  unfolding validate_path current_node
  validate_kubernetes r =
      if_valid
        (λ r'.
          if_valid (λ r''. some (node_known (current_node w r''))) (validate_path pods_path r'))
        (validate_path nodes_path r)

  -- A path is tried as Retry says, and the outcome of its last query is judged.
  pub data PathTried (path : Text) (r : KubernetesReader Num) : Validated Num → Type 0 where
    tried :
        {out : Result (Unit {0})} (e : Ending (Option (Value Num)))
        → IsRight (validation_query path r) (pos 10) e
        → Judged e.result out
        → PathTried path r (out, queried path e.calls r)

  validate_path-PathTried :
      (path : Text) (r : KubernetesReader Num)
      → (v : Validated Num) × (validate_path path r ≡ some v) × PathTried path r v
  unfolding validate_path
  validate_path-PathTried path r =
      let (e, q, right) = retry-IsRight (validation_query path r) (pos 10) in
      (
        (validation_of e.result, queried path e.calls r),
        ap
            (λ (o : Option (Ending (Option (Value Num)))). elim o as (λ x. Option (Validated Num)) [
              | none ↦ none
              | some end ↦ some (validation_of end.result, queried path end.calls r)
            ])
            q,
        tried e right (validation_of-Judged e.result),
      )

  -- How a validation may end.
  pub data ValidationOutcome (r : KubernetesReader Num) : Validated Num → Type 0 where
    no_nodes :
        {e : Exception} {r' : KubernetesReader Num}
        → PathTried nodes_path r (raise e, r')
        → ValidationOutcome r (raise e, r')
    no_pods :
        {u : Unit} {e : Exception} {r' r'' : KubernetesReader Num}
        → PathTried nodes_path r (ok u, r')
        → PathTried pods_path r' (raise e, r'')
        → ValidationOutcome r (raise e, r'')
    on_node :
        {u v : Unit} {b : ℕ} {node : Text} {r' r'' r''' : KubernetesReader Num}
        → PathTried nodes_path r (ok u, r')
        → PathTried pods_path r' (ok v, r'')
        → current_node w r'' ≡ (ok (b ∷ node), r''')
        → ValidationOutcome r (ok tt, r''')
    no_node :
        {u v : Unit} {r' r'' r''' : KubernetesReader Num}
        → PathTried nodes_path r (ok u, r')
        → PathTried pods_path r' (ok v, r'')
        → current_node w r'' ≡ (ok [], r''')
        → ValidationOutcome r (raise thrown_pointer, r''')
    node_error :
        {u v : Unit} {e : Exception} {r' r'' r''' : KubernetesReader Num}
        → PathTried nodes_path r (ok u, r')
        → PathTried pods_path r' (ok v, r'')
        → current_node w r'' ≡ (raise e, r''')
        → ValidationOutcome r (raise e, r''')

  outcome_of_node :
      (u v : Unit {0}) (r r' r'' : KubernetesReader Num)
      (found : Result Text × KubernetesReader Num)
      → PathTried nodes_path r (ok u, r')
      → PathTried pods_path r' (ok v, r'')
      → current_node w r'' ≡ found
      → ValidationOutcome r (node_known found)
  outcome_of_node u v r r' r'' (ok [], r''') n p q = no_node n p q
  outcome_of_node u v r r' r'' (ok (b ∷ node), r''') n p q = on_node n p q
  outcome_of_node u v r r' r'' (raise e, r''') n p q = node_error n p q

  outcome_of_pods :
      (u : Unit {0}) (r r' : KubernetesReader Num) (v : Validated Num)
      → PathTried nodes_path r (ok u, r')
      → PathTried pods_path r' v
      → (out : Validated Num) × (if_valid (λ r''. some (node_known (current_node w r''))) (some v)
          ≡ some out)
        × ValidationOutcome r out
  outcome_of_pods u r r' (ok v, r'') n p = (
    node_known (current_node w r''),
    refl,
    outcome_of_node u v r r' r'' (current_node w r'') n p refl,
  )
  outcome_of_pods u r r' (raise e, r'') n p = ((raise e, r''), refl, no_pods n p)

  outcome_of_nodes :
      (r : KubernetesReader Num) (v : Validated Num)
      → PathTried nodes_path r v
      → (out : Validated Num) × (if_valid
            (λ r'.
              if_valid (λ r''. some (node_known (current_node w r''))) (validate_path pods_path r'))
            (some v)
          ≡ some out)
        × ValidationOutcome r out
  outcome_of_nodes r (raise e, r') n = ((raise e, r'), refl, no_nodes n)
  outcome_of_nodes r (ok u, r') n =
      let (v, q, p) = validate_path-PathTried pods_path r' in
      let (out, o, outcome) = outcome_of_pods u r r' v n p in
      (out, ap (if_valid (λ r''. some (node_known (current_node w r'')))) q ∙ o, outcome)

  -- The validation ends however the master behaves. Each of the two queries is made as Retry says: at
  -- least once, at most ten times, again only after an error that is worth it; a last query that fails
  -- with a QueryException makes it fail with a validation error, and any other exception of it escapes.
  -- The second query is made only if the first passes. If both pass, the validation passes if the agent's
  -- node has a name, throws a pointer, which is no validation error, if the name is empty, and
  -- else throws what the search for the node does.
  pub validate_kubernetes-ValidationOutcome :
      (r : KubernetesReader Num)
      → (out : Validated Num) × (validate_kubernetes r ≡ some out) × ValidationOutcome r out
  unfolding validate_kubernetes
  validate_kubernetes-ValidationOutcome r =
      let (v, q, n) = validate_path-PathTried nodes_path r in
      let (out, o, outcome) = outcome_of_nodes r v n in
      (
        out,
        ap
              (if_valid (λ r'.
                if_valid (λ r''. some (node_known (current_node w r'')))
                  (validate_path pods_path r')))
              q
            ∙ o,
        outcome,
      )

-- ===== src/Kubernetes/Chains.antt =====
-- How long the search for a top-level controller of src/kubernetes.cc goes on, and whose owner it finds.
use metadata_agent.Prelude.{
  text_ord, ℕ, zero, suc, ◌<◌, Text, Option, none, some, ◌≡◌, refl, ◌∙◌, ap, subst, arith,
}
use metadata_agent.Exceptions.{Result, ok, raise, Exception, stack_overflow}
use metadata_agent.Json.{Value, Object}
use metadata_agent.Stateful.{continue_with, Ends, Ends-any, Ends-continue_with}
use metadata_agent.Kubernetes.{World, KubernetesReader}
use metadata_agent.Kubernetes.Objects.{controller_of}
use metadata_agent.Kubernetes.Owners.{get_owner, go_on, find_top_level_controller}

abbrev Any : {Num : Type 0} → Exception → KubernetesReader Num → Type 0
Any e r = Unit

module _ {Num : Type 0} (w : World Num) where
  -- One step of the search.
  find_top_level_controller-step :
      (depth : ℕ) (ns : Text) (v owner : Value Num) (r r' : KubernetesReader Num) (ref : Object Num)
      → controller_of v ≡ ok (some ref)
      → get_owner w ns ref r ≡ (ok owner, r')
      → find_top_level_controller w (suc depth) ns v r
        ≡ find_top_level_controller w depth ns owner r'
  unfolding find_top_level_controller
  find_top_level_controller-step depth ns v owner r r' ref c o =
      ap
        (λ x.
          continue_with (go_on w (find_top_level_controller w depth ns) (get_owner w ns) v) (x, r))
        c
      ∙ ap (λ p. continue_with (find_top_level_controller w depth ns) p) o

  -- An object that is its own controller's controller, as the cache has it, is searched for ever: the
  -- search ends the program however deep the stack may be.
  pub find_top_level_controller-cycle :
      (depth : ℕ) (ns : Text) (v owner : Value Num) (r : KubernetesReader Num)
      (ref ref' : Object Num)
      → controller_of v ≡ ok (some ref)
      → controller_of owner ≡ ok (some ref')
      → get_owner w ns ref r ≡ (ok owner, r)
      → get_owner w ns ref' r ≡ (ok v, r)
      → find_top_level_controller w depth ns v r ≡ (raise stack_overflow, r)
  unfolding find_top_level_controller
  find_top_level_controller-cycle zero ns v owner r ref ref' c c' o o' = refl
  find_top_level_controller-cycle (suc depth) ns v owner r ref ref' c c' o o' =
      find_top_level_controller-step depth ns v owner r r ref c o
      ∙ find_top_level_controller-cycle depth ns owner v r ref' ref c' c o' o

  -- The rank of objects falls from each object to its controller, as the replies and the caches of the
  -- states that are reached have it.
  abbrev pub Falls : (KubernetesReader Num → Type 0) → (Value Num → ℕ) → Text → Type 0
  Falls Reached rank ns =
      (v owner : Value Num) (ref : Object Num) (r r' : KubernetesReader Num)
      → Reached r
      → controller_of v ≡ ok (some ref)
      → get_owner w ns ref r ≡ (ok owner, r')
      → (rank owner < rank v) × Reached r'

  -- Where the chain of controllers of an object ends: at an object that has no controller, which is
  -- returned, or at an exception of reading one's controller or of getting the owner that it names.
  pub data Climbs (ns : Text)
      : Value Num → KubernetesReader Num → Result (Value Num) × KubernetesReader Num → Type 0 where
    top :
        {v : Value Num} {r : KubernetesReader Num}
        → controller_of v ≡ ok none
        → Climbs ns v r (ok v, r)
    unreadable :
        {v : Value Num} {r : KubernetesReader Num} {e : Exception}
        → controller_of v ≡ raise e
        → Climbs ns v r (raise e, r)
    lost :
        {v : Value Num} {r r' : KubernetesReader Num} {e : Exception} (ref : Object Num)
        → controller_of v ≡ ok (some ref)
        → get_owner w ns ref r ≡ (raise e, r')
        → Climbs ns v r (raise e, r')
    up :
        {v : Value Num} {r : KubernetesReader Num} {out : Result (Value Num) × KubernetesReader Num}
        (ref : Object Num) (owner : Value Num) (r' : KubernetesReader Num)
        → controller_of v ≡ ok (some ref)
        → get_owner w ns ref r ≡ (ok owner, r')
        → Climbs ns owner r' out
        → Climbs ns v r out

  owner-Climbs :
      (depth : ℕ) (ns : Text) (v : Value Num) (r : KubernetesReader Num) (ref : Object Num)
      (p : Result (Value Num) × KubernetesReader Num)
      → controller_of v ≡ ok (some ref)
      → get_owner w ns ref r ≡ p
      → ((owner : Value Num) (r' : KubernetesReader Num)
          → get_owner w ns ref r ≡ (ok owner, r')
          → Climbs ns owner r' (find_top_level_controller w depth ns owner r'))
      → Climbs ns v r (continue_with (find_top_level_controller w depth ns) p)
  owner-Climbs depth ns v r ref (ok owner, r') c q h = up ref owner r' c q (h owner r' q)
  owner-Climbs depth ns v r ref (raise e, r') c q h = lost ref c q

  controller-Climbs :
      (depth : ℕ) (ns : Text) (v : Value Num) (r : KubernetesReader Num)
      (c : Result (Option (Object Num)))
      → controller_of v ≡ c
      → ((owner : Value Num) (ref : Object Num) (r' : KubernetesReader Num)
          → controller_of v ≡ ok (some ref)
          → get_owner w ns ref r ≡ (ok owner, r')
          → Climbs ns owner r' (find_top_level_controller w depth ns owner r'))
      → Climbs ns v r
          (continue_with (go_on w (find_top_level_controller w depth ns) (get_owner w ns) v) (c, r))
  controller-Climbs depth ns v r (raise e) q h = unreadable q
  controller-Climbs depth ns v r (ok none) q h = top q
  controller-Climbs depth ns v r (ok (some ref)) q h =
      owner-Climbs depth ns v r ref (get_owner w ns ref r) q refl (λ owner r' o. h owner ref r' q o)

  -- Where some rank of the objects falls from each object to its controller, in all states that are
  -- reached, the search with a stack that is deeper than the rank of the object follows the controllers up
  -- to where their chain ends: it returns the object there that has no controller, or throws what reading
  -- a controller or getting an owner throws. The depth of the stack does not cut it off.
  pub find_top_level_controller-Climbs :
      (Reached : KubernetesReader Num → Type 0) (rank : Value Num → ℕ) (ns : Text)
      → Falls Reached rank ns
      → (depth : ℕ) (v : Value Num) (r : KubernetesReader Num) → Reached r
      → rank v < depth
      → Climbs ns v r (find_top_level_controller w depth ns v r)
  unfolding find_top_level_controller
  find_top_level_controller-Climbs I rank ns f zero v r i h = absurd (omega arith)
  find_top_level_controller-Climbs I rank ns f (suc depth) v r i h =
      controller-Climbs depth ns v r (controller_of v) refl (λ owner ref r' c o.
        let (falls, j) = f v owner ref r r' i c o in
        find_top_level_controller-Climbs I rank ns f depth owner r' j (omega (arith, falls)))

  abbrev IsTop : Value Num → KubernetesReader Num → Type 0
  IsTop v r = controller_of v ≡ ok none

  IsTop-go_on :
      (depth : ℕ) (ns : Text) (v : Value Num) (r : KubernetesReader Num) (c : Option (Object Num))
      → controller_of v ≡ ok c
      → ((u : Value Num) (s : KubernetesReader Num)
          → Ends IsTop Any (find_top_level_controller w depth ns u s))
      → Ends IsTop Any (go_on w (find_top_level_controller w depth ns) (get_owner w ns) v c r)
  IsTop-go_on depth ns v r none h ih = h
  IsTop-go_on depth ns v r (some ref) h ih =
      Ends-continue_with (λ u s. Unit) IsTop Any (find_top_level_controller w depth ns)
        (get_owner w ns ref r) (Ends-any (get_owner w ns ref r)) (λ u s t. ih u s)

  IsTop-controller :
      (depth : ℕ) (ns : Text) (v : Value Num) (r : KubernetesReader Num)
      (c : Result (Option (Object Num)))
      → controller_of v ≡ c
      → ((u : Value Num) (s : KubernetesReader Num)
          → Ends IsTop Any (find_top_level_controller w depth ns u s))
      → Ends IsTop Any
          (continue_with (go_on w (find_top_level_controller w depth ns) (get_owner w ns) v) (c, r))
  IsTop-controller depth ns v r (ok c) h ih = IsTop-go_on depth ns v r c h ih
  IsTop-controller depth ns v r (raise e) h ih = tt

  IsTop-find_top_level_controller :
      (depth : ℕ) (ns : Text) (v : Value Num) (r : KubernetesReader Num)
      → Ends IsTop Any (find_top_level_controller w depth ns v r)
  unfolding find_top_level_controller
  IsTop-find_top_level_controller zero ns v r = tt
  IsTop-find_top_level_controller (suc depth) ns v r =
      IsTop-controller depth ns v r (controller_of v) refl
        (IsTop-find_top_level_controller depth ns)

  -- What the search for a top-level controller returns has no controller itself.
  pub find_top_level_controller-top :
      (depth : ℕ) (ns : Text) (v v' : Value Num) (r r' : KubernetesReader Num)
      → find_top_level_controller w depth ns v r ≡ (ok v', r')
      → controller_of v' ≡ ok none
  find_top_level_controller-top depth ns v v' r r' e =
      subst (Ends IsTop Any) e (IsTop-find_top_level_controller depth ns v r)

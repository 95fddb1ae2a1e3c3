-- ===== src/Kubernetes/Races.antt =====
-- The changes that the two watch threads for services and for endpoints of src/kubernetes.cc make to the
-- caches of services. An event whose object cannot be read is logged by the watch, and changes nothing.
use metadata_agent.Prelude.{text_ord, Text, Bool, List, [], ◌∷◌, ◌≡◌, refl, sym, ◌∙◌, ap, arith}
use metadata_agent.Prelude.Order.{pair_ord}
use metadata_agent.Exceptions.{Result, ok, raise}
use metadata_agent.Json.{Value, Object}
use metadata_agent.Kubernetes.{KubernetesReader, ServiceKey, clone_object}
use metadata_agent.Kubernetes.Endpoints.{service_key, pod_names_of}
use metadata_agent.Kubernetes.Services.{
  cache_metadata, cache_pods, update_service_to_metadata_cache, update_service_to_pods_cache,
}

-- An object that is watched, and whether it was deleted.
abbrev pub Watched : Type 0 → Type 0
Watched Num = Object Num × Bool

pub data Event (Num : Type 0) : Type 0 where
  of_service : Watched Num → Event Num
  of_endpoints : Watched Num → Event Num

-- A sequence of events in which each thread's events stand in their order.
pub data Interleaved {Num : Type 0}
    : List (Watched Num) → List (Watched Num) → List (Event Num) → Type 0 where
  no_events : Interleaved [] [] []
  service_first :
      {s : Watched Num} {ss es : List (Watched Num)} {all : List (Event Num)}
      → Interleaved ss es all
      → Interleaved (s ∷ ss) es (of_service s ∷ all)
  endpoints_first :
      {e : Watched Num} {ss es : List (Watched Num)} {all : List (Event Num)}
      → Interleaved ss es all
      → Interleaved ss (e ∷ es) (of_endpoints e ∷ all)

module _ {Num : Type 0} where
  abbrev pub on_service : Watched Num → KubernetesReader Num → KubernetesReader Num
  on_service (o, is_deleted) r = (update_service_to_metadata_cache o is_deleted r).1

  abbrev pub on_endpoints : Watched Num → KubernetesReader Num → KubernetesReader Num
  on_endpoints (o, is_deleted) r = (update_service_to_pods_cache o is_deleted r).1

  abbrev pub on_event : Event Num → KubernetesReader Num → KubernetesReader Num
  on_event (of_service s) r = on_service s r
  on_event (of_endpoints e) r = on_endpoints e r

  -- The reader after a sequence of steps.
  unfoldable pub after :
      {A : Type 0}
      → (A → KubernetesReader Num → KubernetesReader Num)
      → List A
      → KubernetesReader Num
      → KubernetesReader Num
  after step [] r = r
  after step (x ∷ xs) r = after step xs (step x r)

  -- What the two caches become, by the key that was read and the pods.
  abbrev pub keep_metadata :
      Result ServiceKey → Bool → Value Num → KubernetesReader Num → KubernetesReader Num
  keep_metadata (ok key) d v r = cache_metadata key d v r
  keep_metadata (raise e) d v r = r

  abbrev pub keep_pods :
      Result ServiceKey → Result (List Text) → Bool → KubernetesReader Num → KubernetesReader Num
  keep_pods (ok key) (ok names) d r = cache_pods key d names r
  keep_pods (ok key) (raise e) d r = r
  keep_pods (raise e) names d r = r

  pub on_service_lem :
      (o : Object Num) (d : Bool) (r : KubernetesReader Num)
      → on_service (o, d) r ≡ keep_metadata (service_key o) d (clone_object o) r
  unfolding update_service_to_metadata_cache
  on_service_lem o d r = ground arith

  pub on_endpoints_lem :
      (o : Object Num) (d : Bool) (r : KubernetesReader Num)
      → on_endpoints (o, d) r ≡ keep_pods (service_key o) (pod_names_of o d) d r
  unfolding update_service_to_pods_cache
  on_endpoints_lem o d r = ground arith

  keep_pods-keep_metadata :
      (k k' : Result ServiceKey) (names : Result (List Text)) (d d' : Bool) (v : Value Num)
      (r : KubernetesReader Num)
      → keep_pods k' names d' (keep_metadata k d v r)
        ≡ keep_metadata k d v (keep_pods k' names d' r)
  keep_pods-keep_metadata (ok k) (ok k') (ok names) d d' v r = refl
  keep_pods-keep_metadata (ok k) (ok k') (raise e) d d' v r = refl
  keep_pods-keep_metadata (ok k) (raise e) names d d' v r = refl
  keep_pods-keep_metadata (raise e) k' names d d' v r = refl

  on_endpoints-on_service :
      (s e : Watched Num) (r : KubernetesReader Num)
      → on_endpoints e (on_service s r) ≡ on_service s (on_endpoints e r)
  on_endpoints-on_service (s, d) (e, d') r =
      rw
        (
          on_service_lem s d r,
          on_endpoints_lem e d' r,
          on_service_lem s d (keep_pods (service_key e) (pod_names_of e d') d' r),
          on_endpoints_lem e d' (keep_metadata (service_key s) d (clone_object s) r),
        )
        (keep_pods-keep_metadata (service_key s) (service_key e) (pod_names_of e d') d d'
          (clone_object s) r)

  -- Events of services before those of endpoints.
  after-on_endpoints :
      (ss : List (Watched Num)) (e : Watched Num) (r : KubernetesReader Num)
      → after on_service ss (on_endpoints e r) ≡ on_endpoints e (after on_service ss r)
  unfolding after
  after-on_endpoints [] e r = refl
  after-on_endpoints (s ∷ ss) e r =
      ap (after on_service ss) (sym (on_endpoints-on_service s e r))
      ∙ after-on_endpoints ss e (on_service s r)

  -- However the events of the two watches interleave, the caches become what they become when all
  -- events of services come before all of endpoints: the two threads do not interfere.
  pub after-Interleaved :
      {ss es : List (Watched Num)} {all : List (Event Num)}
      → Interleaved ss es all
      → (r : KubernetesReader Num)
      → after on_event all r ≡ after on_endpoints es (after on_service ss r)
  unfolding after
  after-Interleaved no_events r = refl
  after-Interleaved (service_first i) r = after-Interleaved i _
  after-Interleaved (endpoints_first {e} {ss} {es} i) r =
      after-Interleaved i (on_endpoints e r)
      ∙ ap (after on_endpoints es) (after-on_endpoints ss e r)

-- ===== src/Kubernetes/LastEvents.antt =====
-- src/kubernetes.cc: what the caches of services hold after any events of the watches.
use metadata_agent.Prelude.{
  text_ord, Text, Bool, Option, none, some, List, [], ◌∷◌, if◌then◌else◌, ◌≡◌, refl, ◌∙◌, ap, arith,
}
use metadata_agent.Prelude.Order.{same, pair_ord}
use metadata_agent.Prelude.Map.{Map, find}
use metadata_agent.Prelude.Map.Laws.{find-erase, find-assign}
use metadata_agent.Exceptions.{Result, ok, raise}
use metadata_agent.Json.{Value}
use metadata_agent.Kubernetes.{KubernetesReader, ServiceKey, clone_object}
use metadata_agent.Kubernetes.Endpoints.{service_key, pod_names_of}
use metadata_agent.Kubernetes.Services.{cache}
use metadata_agent.Kubernetes.Races.{
  Event, of_service, of_endpoints, on_event, after, on_service_lem, on_endpoints_lem, keep_metadata,
  keep_pods,
}

find-cache :
    {A : Type 0} (j k : ServiceKey) (is_deleted : Bool) (a : A) (m : Map ServiceKey A)
    → find j (cache k is_deleted a m)
      ≡ (if same k j then if is_deleted then none else some a else find j m)
unfolding cache
find-cache j k d a m = ground (arith, find-erase j k m, find-assign j k a m)

-- What an event tells of a key: nothing, or that it is gone or what is cached for it.
abbrev pub about : {A : Type 0} → ServiceKey → ServiceKey → Bool → A → Option (Option A)
about key k is_deleted a = if same k key then some (if is_deleted then none else some a) else none

abbrev pub or_before : {A : Type 0} → Option (Option A) → Option A → Option A
or_before none before = before
or_before (some now) before = now

abbrev pub told_of_pods :
    ServiceKey → Result ServiceKey → Result (List Text) → Bool → Option (Option (List Text))
told_of_pods key (ok k) (ok names) is_deleted = about key k is_deleted names
told_of_pods key (ok k) (raise e) is_deleted = none
told_of_pods key (raise e) names is_deleted = none

module _ {Num : Type 0} where
  abbrev pub told_of_service :
      ServiceKey → Result ServiceKey → Bool → Value Num → Option (Option (Value Num))
  told_of_service key (ok k) is_deleted v = about key k is_deleted v
  told_of_service key (raise e) is_deleted v = none

  abbrev pub told_metadata : ServiceKey → Event Num → Option (Option (Value Num))
  told_metadata key (of_service (o, d)) = told_of_service key (service_key o) d (clone_object o)
  told_metadata key (of_endpoints e) = none

  abbrev pub told_pods : ServiceKey → Event Num → Option (Option (List Text))
  told_pods key (of_service s) = none
  told_pods key (of_endpoints (o, d)) = told_of_pods key (service_key o) (pod_names_of o d) d

  -- What the last event that tells anything of a key tells, or what was known before.
  unfoldable pub last_told :
      {A : Type 0} → (Event Num → Option (Option A)) → List (Event Num) → Option A → Option A
  last_told told [] before = before
  last_told told (e ∷ es) before = last_told told es (or_before (told e) before)

  find-keep_metadata :
      (key : ServiceKey) (k : Result ServiceKey) (d : Bool) (v : Value Num)
      (r : KubernetesReader Num)
      → find key (keep_metadata k d v r).service_to_metadata
        ≡ or_before (told_of_service key k d v) (find key r.service_to_metadata)
  find-keep_metadata key (ok k) d v r = ground (arith, find-cache key k d v r.service_to_metadata)
  find-keep_metadata key (raise e) d v r = refl

  find-keep_pods :
      (key : ServiceKey) (k : Result ServiceKey) (names : Result (List Text)) (d : Bool)
      (r : KubernetesReader Num)
      → find key (keep_pods k names d r).service_to_pods
        ≡ or_before (told_of_pods key k names d) (find key r.service_to_pods)
  find-keep_pods key (ok k) (ok names) d r =
      ground (arith, find-cache key k d names r.service_to_pods)
  find-keep_pods key (ok k) (raise e) d r = refl
  find-keep_pods key (raise e) names d r = refl

  pods-keep_metadata :
      (k : Result ServiceKey) (d : Bool) (v : Value Num) (r : KubernetesReader Num)
      → (keep_metadata k d v r).service_to_pods ≡ r.service_to_pods
  pods-keep_metadata (ok k) d v r = refl
  pods-keep_metadata (raise e) d v r = refl

  metadata-keep_pods :
      (k : Result ServiceKey) (names : Result (List Text)) (d : Bool) (r : KubernetesReader Num)
      → (keep_pods k names d r).service_to_metadata ≡ r.service_to_metadata
  metadata-keep_pods (ok k) (ok names) d r = refl
  metadata-keep_pods (ok k) (raise e) d r = refl
  metadata-keep_pods (raise e) names d r = refl

  find-on_event :
      (key : ServiceKey) (e : Event Num) (r : KubernetesReader Num)
      → (find key (on_event e r).service_to_metadata
          ≡ or_before (told_metadata key e) (find key r.service_to_metadata))
        × (find key (on_event e r).service_to_pods
            ≡ or_before (told_pods key e) (find key r.service_to_pods))
  find-on_event key (of_service (o, d)) r = rw (on_service_lem o d r) (
    find-keep_metadata key (service_key o) d (clone_object o) r,
    ap (find key) (pods-keep_metadata (service_key o) d (clone_object o) r),
  )
  find-on_event key (of_endpoints (o, d)) r = rw (on_endpoints_lem o d r) (
    ap (find key) (metadata-keep_pods (service_key o) (pod_names_of o d) d r),
    find-keep_pods key (service_key o) (pod_names_of o d) d r,
  )

  -- After any events of the two watches, what is cached for a key is what the last readable event for
  -- it tells: the object of a service or the names of the pods behind it, nothing after a deletion; and
  -- what was cached before, if there was no such event.
  pub find-after :
      (key : ServiceKey) (events : List (Event Num)) (r : KubernetesReader Num)
      → (find key (after on_event events r).service_to_metadata
          ≡ last_told (told_metadata key) events (find key r.service_to_metadata))
        × (find key (after on_event events r).service_to_pods
            ≡ last_told (told_pods key) events (find key r.service_to_pods))
  unfolding after last_told
  find-after key [] r = (refl, refl)
  find-after key (e ∷ es) r =
      let (m, p) = find-on_event key e r in
      let (ms, ps) = find-after key es (on_event e r) in
      (ms ∙ ap (last_told (told_metadata key) es) m, ps ∙ ap (last_told (told_pods key) es) p)

-- ===== src/Tests/Kubernetes/Results.antt =====
-- The results for pods, the caches of services and the queries at concrete inputs.
use metadata_agent.Prelude.{
  text_ord, ℕ, zero, suc, ℤ, pos, Text, true, false, some, List, [], ◌∷◌, codes, ◌≡◌, refl, All,
  length,
}
use metadata_agent.Prelude.Order.{same, list_lt, pair_ord}
use metadata_agent.Prelude.Map.{find, emplace, insert_sorted, emplace_all}
use metadata_agent.Exceptions.{Result, ok, raise}
use metadata_agent.Json.{to_items}
use metadata_agent.Json.Access.{get_object, get_array}
use metadata_agent.Updater.{ResourceMetadata}
use metadata_agent.Environment.{Reply, replied, unreachable}
use metadata_agent.Kubernetes.{World}
use metadata_agent.Kubernetes.Pods.{get_pod_and_container_metadata}
use metadata_agent.Kubernetes.Stamps.{Stamped, get_pod_and_container_metadata-Stamped}
use metadata_agent.Kubernetes.Races.{
  Watched, Event, of_service, of_endpoints, no_events, service_first, endpoints_first, after,
  on_event, on_service, on_endpoints, after-Interleaved,
}
use metadata_agent.Kubernetes.LastEvents.{last_told, told_metadata, told_pods, find-after}
use metadata_agent.Kubernetes.Query.{metadata_query}
use metadata_agent.Kubernetes.Keeps.{Live}
use metadata_agent.Kubernetes.Live.{metadata_query-Live}
use metadata_agent.Kubernetes.Validation.{
  Validated, validate_kubernetes, ValidationOutcome, validate_kubernetes-ValidationOutcome,
}
use metadata_agent.Tests.Kubernetes.{container_spec, pod_spec, pod, world, silent, fresh}

abbrev results_of : {A : Type 0} → Result (List A) → List A
results_of (ok xs) = xs
results_of (raise e) = []

abbrev pod_results : List (ResourceMetadata ℤ)
pod_results = results_of (get_pod_and_container_metadata silent pod (pos 5) false fresh).0

get_pod_and_container_metadata-Stamped_example :
    (length pod_results ≡ 2) × All (Stamped silent (pos 5) false) pod_results
unfolding get_pod_and_container_metadata get_object get_array find same list_lt codes to_items
    insert_sorted
get_pod_and_container_metadata-Stamped_example =
    get_pod_and_container_metadata-Stamped silent pod pod_spec (container_spec ∷ []) (pos 5) false
      fresh pod_results refl refl refl

abbrev service : Watched ℤ
service = (pod, false)

abbrev gone : Watched ℤ
gone = (pod, true)

after-Interleaved_example :
    after on_event (of_service service ∷ of_endpoints service ∷ of_service gone ∷ []) fresh
    ≡ after on_endpoints (service ∷ []) (after on_service (service ∷ gone ∷ []) fresh)
after-Interleaved_example =
    after-Interleaved (service_first (endpoints_first (service_first no_events))) fresh

find-after_example :
    let events : List (Event ℤ) = of_service service ∷ of_endpoints gone ∷ [] in
    (find (codes "s", codes "a") (after on_event events fresh).service_to_metadata
      ≡ last_told
          (told_metadata (codes "s", codes "a"))
          events
          (find (codes "s", codes "a") fresh.service_to_metadata))
    × (find (codes "s", codes "a") (after on_event events fresh).service_to_pods
        ≡ last_told
            (told_pods (codes "s", codes "a"))
            events
            (find (codes "s", codes "a") fresh.service_to_pods))
find-after_example =
    find-after (codes "s", codes "a") (of_service service ∷ of_endpoints gone ∷ []) fresh

-- The list of the nodes, and no reply to the query for the pods.
abbrev first_reply : ℕ → Text → Text → Reply
first_reply zero token endpoint = replied 200 []
first_reply (suc n) token endpoint = unreachable

abbrev first_answered : World ℤ
first_answered = world first_reply

abbrev query_results : List (ResourceMetadata ℤ)
query_results = results_of (metadata_query first_answered fresh).0

metadata_query-Live_example : All Live query_results
unfolding metadata_query codes same list_lt to_items insert_sorted find emplace emplace_all
metadata_query-Live_example = metadata_query-Live first_answered fresh query_results refl

validate_kubernetes-ValidationOutcome_example :
    (out : Validated ℤ) × (validate_kubernetes silent fresh ≡ some out)
    × ValidationOutcome silent fresh out
validate_kubernetes-ValidationOutcome_example = validate_kubernetes-ValidationOutcome silent fresh

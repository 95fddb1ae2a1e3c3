-- ===== src/Tests/Kubernetes/Watches.antt =====
-- The watches at concrete inputs.
use metadata_agent.Prelude.{
  ℕ, zero, suc, ◌+◌, ℤ, pos, Bool, true, false, none, some, [], ◌∷◌, codes, ◌≡◌, refl, arith, All,
}
use metadata_agent.Exceptions.{Result, ok}
use metadata_agent.Prelude.Order.{same, list_lt}
use metadata_agent.Prelude.Map.{find}
use metadata_agent.Json.{Object, to_fields}
use metadata_agent.Kubernetes.Calm.{IsCalmNotification}
use metadata_agent.Store.{Timestamp, empty_store}
use metadata_agent.Stateful.{Act}
use metadata_agent.Kubernetes.Watch.{WatchConnection, WatchLimits, watch_master}
use metadata_agent.Kubernetes.Failing.{
  TooManyFailures, Recovers, watch_master-gave_up, watch_master-goes_on,
}
use metadata_agent.Kubernetes.Updater.{Shared, watch_pods}
use metadata_agent.Kubernetes.Unhealthy.{HasEnded, watch_pods-HasEnded}
use metadata_agent.Tests.Kubernetes.{silent, fresh, object_with, text}

-- A callback that counts its calls.
abbrev counting : Object ℤ → Timestamp → Bool → Act ℕ (Unit {0})
counting object collected_at is_deleted n = (ok tt, suc n)

abbrev one_failure : WatchLimits
one_failure = record { retries = pos 0; max_failures = pos 1 }

-- Each connection brings one event.
abbrev connection : Bool → WatchConnection ℤ
connection fails = record {
  notifications =
      record {
        values =
            object_with ((codes "object", object_with []) ∷ (codes "type", text "ADDED") ∷ []) ∷ [];
        parsed = ok tt;
      }
      ∷ [];
  fails = fails;
}

watch_master-gave_up_example : TooManyFailures pos counting one_failure (λ i. connection true)
unfolding watch_master codes find to_fields same list_lt
watch_master-gave_up_example =
    watch_master-gave_up pos counting one_failure (λ i. connection true) 5 0 2 refl

-- Only the first connection fails.
abbrev first_fails : ℕ → WatchConnection ℤ
first_fails zero = connection true
first_fails (suc i) = connection false

heard : (i : ℕ) → All (IsCalmNotification pos counting) (first_fails i).notifications
heard zero = (refl, tt)
heard (suc i) = (refl, tt)

recovers : Recovers pos counting one_failure first_fails
recovers k count p q = (1, omega (arith, q), later k)
  where
    later : (k : ℕ) → (first_fails (k + 1)).fails ≡ false
    later k = ground arith

watch_master-goes_on_example : (watch_master pos counting one_failure first_fails 50 0 ≡ none)
watch_master-goes_on_example =
    watch_master-goes_on pos counting one_failure first_fails (λ o t d s. refl) heard (omega arith)
      recovers 50 0

abbrev shared : Shared ℤ
shared = record { reader = fresh; store = empty_store; unhealthy = [] }

watch_pods-HasEnded_example :
    (out : Result (Unit {0}) × Shared ℤ) × (watch_pods silent
        (λ endpoint i. connection true)
        []
        2
        shared
      ≡ some out)
    × HasEnded silent (codes "kubernetes_pod_thread") out
watch_pods-HasEnded_example =
    watch_pods-HasEnded silent (λ endpoint i. connection true) [] 1 shared refl (omega arith)

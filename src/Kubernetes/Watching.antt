-- ===== src/Kubernetes/Watching.antt =====
-- src/kubernetes.cc: when the loop of WatchMaster ends.
use metadata_agent.Prelude.{
  text_ord, ℕ, zero, suc, ◌+◌, ◌≤◌, ◌<◌, pos, ltb_ℤ, Bool, true, Option, some, if◌then◌else◌, ◌≡◌,
  refl, ◌∙◌, ap, arith, Bool-cases, inl, inr,
}
use metadata_agent.Exceptions.{Result, ok, raise}
use metadata_agent.Json.{Object}
use metadata_agent.Store.{Timestamp}
use metadata_agent.Stateful.{Act}
use metadata_agent.Kubernetes.Watch.{
  WatchConnection, WatchLimits, WatchEnd, all_retries, gave_up, crashed, after_round, notified,
  goes_on, failures_after, watch_from, watch_master,
}

module _ {Num S : Type 0} (now : S → Timestamp)
    (callback : Object Num → Timestamp → Bool → Act S (Unit {0})) where
  module _ (limits : WatchLimits) (connection : ℕ → WatchConnection Num) where
    abbrev from : ℕ → ℕ → ℕ → S → Option (WatchEnd × S)
    from = watch_from now callback limits connection

    round_ends :
        (seen : Result (Unit {0}) × S) (failures : ℕ) (rest : Option (WatchEnd × S))
        → ((out : WatchEnd × S) × (rest ≡ some out))
        → (out : WatchEnd × S) × (after_round limits.max_failures seen failures rest ≡ some out)
    round_ends (raise e, s) failures rest h = ((crashed e, s), refl)
    round_ends (ok u, s) zero rest h = h
    round_ends (ok u, s) (suc n) rest h =
        elim (Bool-cases (ltb_ℤ limits.max_failures (pos (suc n)))) [
          | inl t ↦ ((gave_up, s), ap (λ (b : Bool). if b then some (gave_up, s) else rest) t)
          | inr f ↦ (h.0, ap (λ (b : Bool). if b then some (gave_up, s) else rest) f ∙ h.1)
        ]

    below_limit :
        (i n : ℕ)
        → limits.retries ≡ pos n
        → 0 < n
        → goes_on now callback limits connection i ≡ true
        → i < n
    below_limit i n e p go = ground (arith, e, go)

    watch_from-ends :
        (fuel i failures n : ℕ) (s : S)
        → limits.retries ≡ pos n
        → 0 < n
        → i ≤ n
        → n < i + fuel
        → (out : WatchEnd × S) × (from fuel i failures s ≡ some out)
    unfolding watch_from
    watch_from-ends zero i failures n s e p q h = absurd (omega arith)
    watch_from-ends (suc fuel) i failures n s e p q h =
        elim (Bool-cases (goes_on now callback limits connection i)) [
          | inr stop ↦ ((all_retries, s), rw stop refl)
          | inl go ↦ rw go (
              round_ends (notified now callback (connection i).notifications s)
                (failures_after now callback limits connection i failures) _
                (watch_from-ends fuel (suc i) _ n _ e p (below_limit i n e p go) (omega arith)))
        ]

    -- With a positive number of retries, a watch ends after at most that many connections.
    pub watch_master-ends :
        (n : ℕ) (s : S)
        → limits.retries ≡ pos n
        → 0 < n
        → (out : WatchEnd × S) × (watch_master now callback limits connection (suc n) s ≡ some out)
    unfolding watch_master
    watch_master-ends n s e p = watch_from-ends (suc n) 0 0 n s e p (omega arith) (omega arith)

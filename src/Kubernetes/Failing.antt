-- ===== src/Kubernetes/Failing.antt =====
-- src/kubernetes.cc: the failures of the connections of WatchMaster.
use metadata_agent.Prelude.{
  text_ord, ℕ, zero, suc, ◌+◌, ◌<◌, pos, ltb_ℤ, ◌<ℤ◌, ◌≤ℤ◌, Bool, true, false, Option, none, some,
  if◌then◌else◌, ◌≡◌, refl, sym, ◌∙◌, ap, subst, arith, All, Bool-cases, ◌⊎◌, inl, inr,
}
use native.Mathlib.Decide.{dec_lt}
use metadata_agent.Exceptions.{Result, ok, raise}
use metadata_agent.Json.{Object}
use metadata_agent.Store.{Timestamp}
use metadata_agent.Stateful.{Act}
use metadata_agent.Kubernetes.Watch.{
  WatchConnection, WatchLimits, WatchEnd, gave_up, after_round, notified, goes_on, failures_after,
  watch_from, watch_master,
}
use metadata_agent.Kubernetes.Calm.{IsCalmCallback, IsCalmNotification, notified-ok}

module _ {Num S : Type 0} (now : S → Timestamp)
    (callback : Object Num → Timestamp → Bool → Act S (Unit {0})) where
  module _ (limits : WatchLimits) (connection : ℕ → WatchConnection Num) where
    abbrev from : ℕ → ℕ → ℕ → S → Option (WatchEnd × S)
    from = watch_from now callback limits connection

    -- Connections in a row, from the `k`-th, that all failed.
    abbrev pub AllFailed : ℕ → ℕ → Type 0
    AllFailed k count = (j : ℕ) → j < count → (connection (k + j)).fails ≡ true

    -- A watch that gave up had more failures in a row than are allowed.
    abbrev pub TooManyFailures : Type 0
    TooManyFailures =
        (k : ℕ) × (count : ℕ) × (0 < count) × (limits.max_failures <ℤ pos count) × AllFailed k count

    -- The failures so far are those of the last connections.
    abbrev Running : ℕ → ℕ → Type 0
    Running i failures = (k : ℕ) × (k + failures ≡ i) × AllFailed k failures

    longer_run :
        (k failures : ℕ)
        → AllFailed k failures
        → (connection (k + failures)).fails ≡ true
        → AllFailed k (suc failures)
    longer_run k failures h now j q = elim (dec_lt j failures) [
      | yes p ↦ h j p
      | no p ↦
          let e : j ≡ failures = omega arith in
          subst (λ n. (connection (k + n)).fails ≡ true) (sym e) now
    ]

    Running-failures_after :
        (i failures : ℕ)
        → Running i failures
        → Running (suc i) (failures_after now callback limits connection i failures)
    Running-failures_after i failures (k, e, h) = elim (Bool-cases ((connection i).fails)) [
      | inl t ↦ rw t (
        k,
        omega (arith, e),
        longer_run k failures h (subst (λ n. (connection n).fails ≡ true) (sym e) t),
      )
      | inr f ↦ rw f (suc i, omega arith, λ j q. absurd (omega arith))
    ]

    -- A round gives up only after too many failures.
    round_gives_up :
        (seen : Result (Unit {0}) × S) (failures : ℕ) (rest : Option (WatchEnd × S)) (s : S)
        → after_round limits.max_failures seen failures rest ≡ some (gave_up, s)
        → (rest ≡ some (gave_up, s)) ⊎ ((0 < failures) × (limits.max_failures <ℤ pos failures))
    round_gives_up (raise e, s') failures rest s h = absurd (ground arith)
    round_gives_up (ok u, s') zero rest s h = inl h
    round_gives_up (ok u, s') (suc n) rest s h =
        elim (Bool-cases (ltb_ℤ limits.max_failures (pos (suc n)))) [
          | inl t ↦ inr (omega arith, ground (arith, t))
          | inr f ↦ inl (sym (ap (λ (b : Bool). if b then some (gave_up, s') else rest) f) ∙ h)
        ]

    abbrev seen_in : ℕ → S → Result (Unit {0}) × S
    seen_in i s = notified now callback (connection i).notifications s

    abbrev failures_in : ℕ → ℕ → ℕ
    failures_in = failures_after now callback limits connection

    watch_from_goes_on :
        (fuel i failures : ℕ) (s : S)
        → goes_on now callback limits connection i ≡ true
        → from (suc fuel) i failures s
          ≡ after_round limits.max_failures
              (seen_in i s)
              (failures_in i failures)
              (from fuel (suc i) (failures_in i failures) (seen_in i s).1)
    unfolding watch_from
    watch_from_goes_on fuel i failures s go = rw go refl

    watch_from-gave_up :
        (fuel i failures : ℕ) (s s' : S)
        → Running i failures
        → from fuel i failures s ≡ some (gave_up, s')
        → TooManyFailures
    unfolding watch_from
    watch_from-gave_up zero i failures s s' run h = absurd (ground arith)
    watch_from-gave_up (suc fuel) i failures s s' run h =
        elim (Bool-cases (goes_on now callback limits connection i)) [
          | inr stop ↦ absurd (ground (arith, stop, h))
          | inl go ↦
              elim (round_gives_up (seen_in i s) (failures_in i failures) _ s'
                (sym (watch_from_goes_on fuel i failures s go) ∙ h)) [
                  | inl later ↦
                      watch_from-gave_up fuel (suc i) (failures_in i failures) _ s'
                        (Running-failures_after i failures run) later
                  | inr many ↦
                      let (k, e, failed) = Running-failures_after i failures run in
                      (k, failures_in i failures, many.0, many.1, failed)
                ]
        ]

    -- A watch gives up, with a QueryException, only after a run of connections that all failed and that
    -- is longer than the configured number of failures: any connection that closes well starts the count
    -- anew.
    pub watch_master-gave_up :
        (fuel : ℕ) (s s' : S)
        → watch_master now callback limits connection fuel s ≡ some (gave_up, s')
        → TooManyFailures
    unfolding watch_master
    watch_master-gave_up fuel s s' h =
        watch_from-gave_up fuel 0 0 s s' (0, refl, λ j q. absurd (omega arith)) h

    -- A round that fails to give up.
    round_goes_on :
        (seen : Result (Unit {0}) × S) (failures : ℕ)
        → seen.0 ≡ ok tt
        → (0 < failures → pos failures ≤ℤ limits.max_failures)
        → after_round limits.max_failures seen failures none ≡ none
    round_goes_on (raise e, s) failures h few = absurd (ground arith)
    round_goes_on (ok u, s) zero h few = refl
    round_goes_on (ok u, s) (suc n) h few = ground (arith, few)

    -- In each run of connections that is longer than the allowed failures, one does not fail.
    abbrev pub Recovers : Type 0
    Recovers =
        (k count : ℕ)
        → 0 < count
        → limits.max_failures <ℤ pos count
        → (j : ℕ) × (j < count) × ((connection (k + j)).fails ≡ false)

    few_failures :
        (i failures : ℕ)
        → Recovers
        → Running i failures
        → 0 < failures
        → pos failures ≤ℤ limits.max_failures
    few_failures i failures recovers (k, e, failed) some_failure =
        elim (Bool-cases (ltb_ℤ limits.max_failures (pos failures))) [
          | inr f ↦ ground (arith, f)
          | inl t ↦
              let (j, q, well) = recovers k failures some_failure (ground (arith, t)) in
              absurd (ground (arith, well, failed j q))
        ]

    watch_from-goes_on :
        IsCalmCallback now callback
        → ((i : ℕ) → All (IsCalmNotification now callback) (connection i).notifications)
        → limits.retries ≤ℤ pos 0
        → Recovers
        → (fuel i failures : ℕ) (s : S) → Running i failures
        → from fuel i failures s ≡ none
    unfolding watch_from
    watch_from-goes_on calm heard forever recovers zero i failures s run = refl
    watch_from-goes_on calm heard forever recovers (suc fuel) i failures s run =
        let run' = Running-failures_after i failures run in
        watch_from_goes_on fuel i failures s (ground (arith, forever))
        ∙ ap (after_round limits.max_failures (seen_in i s) (failures_in i failures)) (
            watch_from-goes_on calm heard forever recovers fuel (suc i) (failures_in i failures) _
              run')
        ∙ round_goes_on (seen_in i s) (failures_in i failures)
            (notified-ok now callback calm (connection i).notifications s (heard i))
            (few_failures (suc i) (failures_in i failures) recovers run')

    -- Without a limit of retries, a watch goes on for ever, if its connections recover: if no run of
    -- failures is longer than allowed, and the callback and the parser throw nothing but
    -- json::Exceptions.
    pub watch_master-goes_on :
        IsCalmCallback now callback
        → ((i : ℕ) → All (IsCalmNotification now callback) (connection i).notifications)
        → limits.retries ≤ℤ pos 0
        → Recovers
        → (fuel : ℕ) (s : S) → watch_master now callback limits connection fuel s ≡ none
    unfolding watch_master
    watch_master-goes_on calm heard forever recovers fuel s =
        watch_from-goes_on calm heard forever recovers fuel 0 0 s
          (0, refl, λ j q. absurd (omega arith))

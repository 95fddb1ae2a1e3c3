-- ===== src/Main/Starts.antt =====
-- src/metadatad.cc: when an updater is started, and what it is then.
use metadata_agent.Prelude.{
  text_ord, ℤ, pos, ◌≤ℤ◌, Bool, true, false, ◌||◌, ◌≡◌, refl, arith, if◌then◌else◌, ◌⊎◌, inl, inr,
  ◌↔◌, sym, Bool-cases,
}
use metadata_agent.Exceptions.{ok_injective, Result, ok, raise}
use metadata_agent.Timer.{init}
use metadata_agent.Updater.{
  started, start, start_polling, validate_static_configuration, should_start_updater,
}
use metadata_agent.Main.{
  Updater, new_updater, start_updater, started_by, start_polling_updater, start_kubernetes_updater,
  start_kubernetes,
}

-- A polling updater that runs, and one that watches.
abbrev pub polling_updater : Updater
polling_updater = record { phase = started; timer = record { locked = true } }

abbrev pub watching_updater : Updater
watching_updater = record { phase = started; timer = record { locked = false } }

-- The period is not negative, and an updater that is to be started is valid and can run.
abbrev pub IsValid : ℤ → Bool → Result (Unit {0}) → Type 0 → Type 0
IsValid period starts dynamic Runs = (pos 0 ≤ℤ period) × (starts ≡ true → (dynamic ≡ ok tt) × Runs)

validate-not_negative :
    (period : ℤ) → (validate_static_configuration period ≡ ok tt) ↔ (pos 0 ≤ℤ period)
unfolding validate_static_configuration
validate-not_negative period = ground arith

-- The two ways in which a start does not throw.
start-ok :
    (static : Result (Unit {0})) (starts : Bool) (dynamic : Result (Unit {0}))
    (begin : Updater → Result Updater) (u v : Updater)
    → started_by (start static starts dynamic) begin u ≡ ok v
    → (static ≡ ok tt)
      × (((starts ≡ false) × (v ≡ u)) ⊎ ((starts ≡ true) × (dynamic ≡ ok tt) × (begin u ≡ ok v)))
unfolding start
start-ok (ok w) false dynamic begin u v h = (refl, inl (refl, sym (ok_injective h)))
start-ok (ok w) true (ok x) begin u v h = (refl, inr (refl, refl, h))
start-ok (ok w) true (raise e) begin u v h = absurd (ground arith)
start-ok (raise e) starts dynamic begin u v h = absurd (ground arith)

module _ (period : ℤ) (starts : Bool) (dynamic : Result (Unit {0}))
    (begin : Updater → Result Updater) (Runs : Type 0) (running : Updater) where
  -- What an updater is after its start, if that runs it as `running`.
  start-running :
      (u : Updater)
      → (begin new_updater ≡ ok u → Runs × (u ≡ running))
      → started_by (start (validate_static_configuration period) starts dynamic) begin new_updater
        ≡ ok u
      → IsValid period starts dynamic Runs × (u ≡ (if starts then running else new_updater))
  start-running u runs h =
      let (static, ways) =
        start-ok (validate_static_configuration period) starts dynamic begin new_updater u h in
      let valid = (validate-not_negative period).0 static in
      elim ways [
        | inl way ↦ ((valid, λ on. absurd (ground arith)), rw (way.0) (way.1))
        | inr way ↦ ((valid, λ on. (way.1, (runs (way.2)).0)), rw (way.0) ((runs (way.2)).1))
      ]

  -- A valid updater is started.
  start-IsValid :
      IsValid period starts dynamic Runs
      → (Runs → begin new_updater ≡ ok running)
      → started_by (start (validate_static_configuration period) starts dynamic) begin new_updater
        ≡ ok (if starts then running else new_updater)
  unfolding start
  start-IsValid (valid, can_run) runs = elim (Bool-cases starts) [
    | inl on ↦
        rw ((validate-not_negative period).1 valid, on, (can_run on).0) (runs ((can_run on).1))
    | inr off ↦ rw ((validate-not_negative period).1 valid, off) refl
  ]

-- The start of a polling updater does not throw exactly if it is valid.
abbrev pub polled : ℤ → Updater
polled period = if should_start_updater period then polling_updater else new_updater

pub start_polling_updater-ok :
    (period : ℤ) (dynamic : Result (Unit {0})) (u : Updater)
    → start_polling_updater period dynamic new_updater ≡ ok u
    → IsValid period (should_start_updater period) dynamic Unit × (u ≡ polled period)
unfolding start_polling_updater start_polling start_updater init
start_polling_updater-ok period dynamic u h =
    start-running period (should_start_updater period) dynamic _ Unit polling_updater u
      (λ e. (tt, sym (ok_injective e))) h

pub start_polling_updater-IsValid :
    (period : ℤ) (dynamic : Result (Unit {0}))
    → IsValid period (should_start_updater period) dynamic Unit
    → start_polling_updater period dynamic new_updater ≡ ok (polled period)
unfolding start_polling_updater start_polling start_updater init
start_polling_updater-IsValid period dynamic h =
    start-IsValid period (should_start_updater period) dynamic _ Unit polling_updater h (λ r. refl)

-- The watches can be started if there are to be any.
abbrev pub CanWatch : Bool → Result (Unit {0}) → Type 0
CanWatch use_watch watches = use_watch ≡ true → watches ≡ ok tt

abbrev pub running_kubernetes : Bool → Updater
running_kubernetes use_watch = if use_watch then watching_updater else polling_updater

start_kubernetes_updater-ok :
    (use_watch : Bool) (watches : Result (Unit {0})) (u : Updater)
    → start_kubernetes_updater use_watch watches new_updater ≡ ok u
    → CanWatch use_watch watches × (u ≡ running_kubernetes use_watch)
unfolding start_kubernetes_updater start_updater init
start_kubernetes_updater-ok true (ok w) u h = (λ on. refl, sym (ok_injective h))
start_kubernetes_updater-ok true (raise e) u h = absurd (ground arith)
start_kubernetes_updater-ok false watches u h = (λ on. absurd (ground arith), sym (ok_injective h))

start_kubernetes_updater-CanWatch :
    (use_watch : Bool) (watches : Result (Unit {0}))
    → CanWatch use_watch watches
    → start_kubernetes_updater use_watch watches new_updater ≡ ok (running_kubernetes use_watch)
unfolding start_kubernetes_updater start_updater init
start_kubernetes_updater-CanWatch true watches h = rw (h refl) refl
start_kubernetes_updater-CanWatch false watches h = refl

module _ (period : ℤ) (use_watch : Bool) (dynamic watches : Result (Unit {0})) where
  abbrev pub started_kubernetes : Updater
  started_kubernetes =
      if should_start_updater period || use_watch then running_kubernetes use_watch else new_updater

  pub start_kubernetes-ok :
      (u : Updater)
      → start_kubernetes period use_watch dynamic watches new_updater ≡ ok u
      → IsValid period
          (should_start_updater period || use_watch)
          dynamic
          (CanWatch use_watch watches)
        × (u ≡ started_kubernetes)
  unfolding start_kubernetes
  start_kubernetes-ok u h =
      start-running period (should_start_updater period || use_watch) dynamic _ _ _ u
        (start_kubernetes_updater-ok use_watch watches u) h

  pub start_kubernetes-IsValid :
      IsValid period (should_start_updater period || use_watch) dynamic (CanWatch use_watch watches)
      → start_kubernetes period use_watch dynamic watches new_updater ≡ ok started_kubernetes
  unfolding start_kubernetes
  start_kubernetes-IsValid h =
      start-IsValid period (should_start_updater period || use_watch) dynamic _ _ _ h
        (start_kubernetes_updater-CanWatch use_watch watches)

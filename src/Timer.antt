-- ===== src/Timer.antt =====
-- src/time.h: the timer of the polling threads, the expiration time and the retries of src/util.h,
-- over a clock that the model is given.
use metadata_agent.Prelude.{
  ℤ, ltb_ℤ, ◌+ℤ◌, ◌≤ℤ◌, ◌<ℤ◌, Bool, true, false, Option, none, some, List, [], ◌∷◌, ◌≡◌, arith,
  if◌then◌else◌, ◌⊎◌, inl, inr, Bool-cases, ltb_ℤ_iff,
}

-- std::timed_mutex as the timer uses it: locked from Init until Cancel.
pub record TimerImpl : Type 0 where
  pub locked : Bool

-- Init and Cancel.
unfoldable pub init : TimerImpl → TimerImpl
init t = record { locked = true }

unfoldable pub cancel : TimerImpl → TimerImpl
cancel t = record { locked = false }

-- One return of try_lock_until: it took the lock, or it gave up at a time of the clock.
pub data Attempt : Type 0 where
  taken : Attempt
  gave_up : ℤ → Attempt

-- The loop of Wait over the returns of try_lock_until: true if the time passed, false if the timer was
-- cancelled; `none` while it still waits. A return before the time is spurious.
unfoldable pub wait : ℤ → List Attempt → Option Bool
wait wakeup [] = none
wait wakeup (taken ∷ later) = some false
wait wakeup (gave_up now ∷ later) =
    let again = wait wakeup later in if ltb_ℤ now wakeup then again else some true

-- The first return that is not spurious decides.
abbrev pub Decided : ℤ → List Attempt → Bool → Type 0
Decided wakeup [] b = ⊥
Decided wakeup (taken ∷ later) b = b ≡ false
Decided wakeup (gave_up now ∷ later) b =
    ((wakeup ≤ℤ now) × (b ≡ true)) ⊎ ((now <ℤ wakeup) × Decided wakeup later b)

-- Wait returns true only at a clock time that is not before the wakeup time, and false only when the
-- lock was taken, after spurious wakeups alone.
pub wait-Decided :
    (wakeup : ℤ) (attempts : List Attempt) (b : Bool)
    → wait wakeup attempts ≡ some b
    → Decided wakeup attempts b
unfolding wait
wait-Decided wakeup [] b h = ground arith
wait-Decided wakeup (taken ∷ later) b h = ground arith
wait-Decided wakeup (gave_up now ∷ later) b h = elim (Bool-cases (ltb_ℤ now wakeup)) [
  | inl early ↦ inr ((ltb_ℤ_iff now wakeup).0 early, wait-Decided wakeup later b (rw early at h))
  | inr late ↦ inl (ground arith, ground arith)
]

-- IsExpired and Reset of ExpirationImpl, in seconds of the clock.
unfoldable pub is_expired : ℤ → ℤ → Bool
is_expired token_expiration now = ltb_ℤ token_expiration now

unfoldable pub reset : ℤ → ℤ → ℤ
reset now duration = now +ℤ duration

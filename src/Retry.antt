-- ===== src/Retry.antt =====
-- src/util.h: util::Retry<NonRetriableError, QueryException>. The work's outcomes, one for each call,
-- are a function of the number of the call.
use metadata_agent.Prelude.{
  ℕ, zero, suc, ◌+◌, ◌-◌, ◌≤◌, ◌<◌, ℤ, pos, negsuc, ltb_ℤ, ◌-ℤ◌, Bool, true, false, Option, none,
  some, ◌≡◌, ◌≢◌, arith, if◌then◌else◌, ◌⊎◌, inl, inr, Bool-cases, ap, ltb, ◌&&◌,
}
use native.Mathlib.Decide.{dec_lt}
use metadata_agent.Exceptions.{
  Result, ok, raise, Exception, query_exception, non_retriable_error, validation_error,
  json_exception, out_of_range, system_error, unknown_kind, null_dereference, stack_overflow,
  thrown_pointer,
}

-- How a call of Retry ends: after how many calls of the work, and with what.
pub record Ending (A : Type 0) : Type 0 where
  pub calls : ℕ
  pub result : Result A

-- The calls of the work are retried after a QueryException that is no NonRetriableError.
abbrev pub retriable : {A : Type 0} → Result A → Bool
retriable (ok a) = false
retriable (raise query_exception) = true
retriable (raise e) = false

-- What a validation makes of the end of its retries.
abbrev pub validation_of : {A : Type 0} → Result A → Result (Unit {0})
validation_of (ok a) = ok tt
validation_of (raise query_exception) = raise validation_error
validation_of (raise non_retriable_error) = raise validation_error
validation_of (raise e) = raise e

-- How a validation answers the end of its retries: it passes on a result, fails with a validation error on a
-- QueryException, whether that is a NonRetriableError or not, and lets any other exception escape.
pub data Judged {A : Type 0} : Result A → Result (Unit {0}) → Type 0 where
  passes : {a : A} → Judged (ok a) (ok tt)
  query_failed : Judged (raise query_exception) (raise validation_error)
  refused : Judged (raise non_retriable_error) (raise validation_error)
  escapes :
      {e : Exception} → e ≢ query_exception → e ≢ non_retriable_error → Judged (raise e) (raise e)

pub validation_of-Judged : {A : Type 0} (r : Result A) → Judged r (validation_of r)
validation_of-Judged (ok a) = passes
validation_of-Judged (raise query_exception) = query_failed
validation_of-Judged (raise non_retriable_error) = refused
validation_of-Judged (raise (json_exception x)) = escapes (λ q. cc) (λ q. cc)
validation_of-Judged (raise out_of_range) = escapes (λ q. cc) (λ q. cc)
validation_of-Judged (raise system_error) = escapes (λ q. cc) (λ q. cc)
validation_of-Judged (raise validation_error) = escapes (λ q. cc) (λ q. cc)
validation_of-Judged (raise (unknown_kind kind)) = escapes (λ q. cc) (λ q. cc)
validation_of-Judged (raise null_dereference) = escapes (λ q. cc) (λ q. cc)
validation_of-Judged (raise stack_overflow) = escapes (λ q. cc) (λ q. cc)
validation_of-Judged (raise thrown_pointer) = escapes (λ q. cc) (λ q. cc)

-- The calls that Retry may make: at least one.
abbrev pub attempts : ℤ → ℕ
attempts (pos zero) = 1
attempts (pos (suc n)) = suc n
attempts (negsuc n) = 1

attempts-pos : (m : ℤ) → 0 < attempts m
attempts-pos (pos zero) = omega arith
attempts-pos (pos (suc n)) = omega arith
attempts-pos (negsuc n) = omega arith

-- The test of the loop, at the round `i` with `fuel` rounds to go after it.
more_rounds :
    (max_retries : ℤ) (i fuel : ℕ)
    → i + suc fuel ≡ attempts max_retries
    → ltb_ℤ (pos i) (max_retries -ℤ pos 1) ≡ ltb 0 fuel
unfolding ◌-ℤ◌
more_rounds (pos zero) i fuel h = ground arith
more_rounds (pos (suc n)) i fuel h = ground arith
more_rounds (negsuc n) i fuel h = ground arith

module _ {A : Type 0} (work : ℕ → Result A) where
  -- The loop from its round `i`, with fuel: `none` if the fuel runs out.
  unfoldable pub retry_from : ℕ → ℤ → ℕ → Option (Ending A)
  retry_from zero max_retries i = none
  retry_from (suc fuel) max_retries i =
      let again = retry_from fuel max_retries (suc i) in
      if retriable (work i) && ltb_ℤ (pos i) (max_retries -ℤ pos 1)
      then again
      else some (record { calls = suc i; result = work i })

  -- Retry, with the fuel that suffices.
  unfoldable pub retry : ℤ → Option (Ending A)
  unfolding retry_from
  retry max_retries = retry_from (attempts max_retries) max_retries 0

  -- An ending is right if every call before the last failed with a retriable error, the result is that
  -- of the last call, and the last call either was not retriable or was the last that is allowed.
  pub record IsRight (max_retries : ℤ) (e : Ending A) : Type 0 where
    pub some_call : 0 < e.calls
    pub few_calls : e.calls ≤ attempts max_retries
    pub last_result : e.result ≡ work (e.calls - 1)
    pub gave_up : (e.calls ≡ attempts max_retries) ⊎ (retriable e.result ≡ false)
    pub failures : (i : ℕ) → suc i < e.calls → retriable (work i) ≡ true

  failures-suc :
      (i : ℕ)
      → ((j : ℕ) → j < i → retriable (work j) ≡ true)
      → retriable (work i) ≡ true
      → (j : ℕ) → j < suc i
      → retriable (work j) ≡ true
  failures-suc i before now j h = elim (dec_lt j i) [
    | yes p ↦ before j p
    | no p ↦ let e : j ≡ i = omega arith in rw e now
  ]

  last_round :
      (m : ℤ) (i fuel : ℕ)
      → i + suc fuel ≡ attempts m
      → (retriable (work i) && ltb_ℤ (pos i) (m -ℤ pos 1)) ≡ false
      → (suc i ≡ attempts m) ⊎ (retriable (work i) ≡ false)
  last_round m i fuel h stop = elim (Bool-cases (retriable (work i))) [
    | inl t ↦ inl (ground (arith, more_rounds m i fuel h))
    | inr f ↦ inr f
  ]

  retry_from-IsRight :
      (fuel : ℕ) (max_retries : ℤ) (i : ℕ)
      → i + fuel ≡ attempts max_retries
      → 0 < fuel
      → ((j : ℕ) → j < i → retriable (work j) ≡ true)
      → (e : Ending A) × (retry_from fuel max_retries i ≡ some e) × IsRight max_retries e
  unfolding retry_from
  retry_from-IsRight zero m i h p before = absurd (omega arith)
  retry_from-IsRight (suc fuel) m i h p before =
      elim (Bool-cases (retriable (work i) && ltb_ℤ (pos i) (m -ℤ pos 1))) [
        | inl again ↦ rw again (
            retry_from-IsRight fuel m (suc i) (omega arith) (ground (arith, more_rounds m i fuel h))
              (failures-suc i before (ground arith)))
        | inr stop ↦ (
          record { calls = suc i; result = work i },
          rw stop,
          record {
            some_call = omega arith;
            few_calls = omega arith;
            last_result = ap work (omega arith);
            gave_up = last_round m i fuel h stop;
            failures = λ j q. before j (omega arith);
          },
        )
      ]

  -- Retry ends for every limit and every behaviour of the work: it makes at least one call and at most
  -- the limit's number (one if the limit is not positive), stops at the first call that does not fail
  -- with a retriable error, and its result is that of the last call.
  pub retry-IsRight :
      (max_retries : ℤ) → (e : Ending A) × (retry max_retries ≡ some e) × IsRight max_retries e
  unfolding retry
  retry-IsRight m =
      retry_from-IsRight (attempts m) m 0 (omega arith) (attempts-pos m)
        (λ j h. absurd (omega arith))

-- ===== src/Oauth2/Cache.antt =====
-- src/oauth2.cc: the header that GetAuthHeaderValue keeps, while its token has not expired.
use metadata_agent.Prelude.{
  ℕ, zero, suc, ◌+◌, ◌<◌, ◌≤ℤ◌, ℤ, Text, false, Option, none, some, List, [], ◌∷◌, ◌≡◌, refl, ◌∙◌,
  sym, subst, ap, replicate, ◌≢◌, ◌⊎◌, inl, inr, arith, Bool-cases, is_empty, ltb_ℤ, if◌then◌else◌,
}
use metadata_agent.Exceptions.{ok_injective, Result, ok, raise, json_exception}
use metadata_agent.Json.{Value}
use metadata_agent.Timer.{is_expired}
use metadata_agent.Stateful.{Returns, Returns-continue_with}
use metadata_agent.Oauth2.{World, OAuth2, token_fields}
use metadata_agent.Oauth2.Requests.{get_auth_header_value, renew, use_token, keep_token, new_token}

not_late : (a b : ℤ) → b ≤ℤ a → ltb_ℤ a b ≡ false
not_late a b h = ground arith

at_time : (a b : ℤ) → ltb_ℤ a b ≡ false → b ≤ℤ a
at_time a b h = ground arith

add_suc : (k n : ℕ) → n + suc k ≡ suc n + k
add_suc k n = omega arith

add_zero : (n : ℕ) → n + 0 ≡ n
add_zero n = omega arith

not_empty : (header : Text) → header ≢ [] → is_empty header ≡ false
not_empty [] h = absurd (h refl)
not_empty (b ∷ header) h = refl

module _ {Num : Type 0} (w : World Num) where
  -- A call returns no header, or the one that is kept.
  abbrev pub Kept : Text → OAuth2 → Type 0
  Kept header s = (header ≡ []) ⊎ (s.auth_header_value ≡ header)

  keep_token-Kept : (fields : Result (Text × ℤ)) (s : OAuth2) → Returns Kept (keep_token w fields s)
  keep_token-Kept (ok (header, expires_in)) s = inr refl
  keep_token-Kept (raise (json_exception x)) s = inl refl
  keep_token-Kept (raise e) s = tt

  use_token-Kept : (token : Option (Value Num)) (s : OAuth2) → Returns Kept (use_token w token s)
  use_token-Kept none s = inl refl
  use_token-Kept (some v) s = keep_token-Kept (token_fields w v) s

  renew-Kept : (s : OAuth2) → Returns Kept (renew w s)
  unfolding renew
  renew-Kept s = Returns-continue_with Kept (use_token w) (new_token w s) use_token-Kept

  -- A header that is not empty is used until the clock is past the expiration.
  abbrev pub Usable : OAuth2 → Type 0
  Usable s = (is_empty s.auth_header_value ≡ false) × (w.clock s.readings ≤ℤ s.token_expiration)

  -- The header and the expiration are as they were.
  abbrev pub SameToken : OAuth2 → OAuth2 → Type 0
  SameToken s t =
      (t.auth_header_value ≡ s.auth_header_value) × (t.token_expiration ≡ s.token_expiration)

  pub get_auth_header_value-Usable :
      (s : OAuth2)
      → Usable s
      → get_auth_header_value w s ≡ (ok s.auth_header_value, record s { readings = suc s.readings })
  unfolding get_auth_header_value is_expired
  get_auth_header_value-Usable s (kept, early) =
      rw (kept, not_late s.token_expiration (w.clock s.readings) early) refl

  -- The state in which a new token is looked for. The clock was read if there was a header.
  abbrev pub renewing : OAuth2 → OAuth2
  renewing s = record s {
    readings = if is_empty s.auth_header_value then s.readings else suc s.readings;
  }

  pub get_auth_header_value-cases :
      (s : OAuth2) → Usable s ⊎ (get_auth_header_value w s ≡ renew w (renewing s))
  unfolding get_auth_header_value is_expired
  get_auth_header_value-cases s = elim (Bool-cases (is_empty s.auth_header_value)) [
    | inl empty ↦ inr (rw empty refl)
    | inr kept ↦ elim (Bool-cases (ltb_ℤ s.token_expiration (w.clock s.readings))) [
      | inl late ↦ inr (rw (kept, late) refl)
      | inr early ↦ inl (kept, at_time s.token_expiration (w.clock s.readings) early)
    ]
  ]

  pub get_auth_header_value-Kept : (s : OAuth2) → Returns Kept (get_auth_header_value w s)
  get_auth_header_value-Kept s = elim (get_auth_header_value-cases s) [
    | inl usable ↦ subst (Returns Kept) (sym (get_auth_header_value-Usable s usable)) (inr refl)
    | inr e ↦ subst (Returns Kept) (sym e) (renew-Kept (renewing s))
  ]

  -- The state after `n` readings of the clock.
  abbrev pub after_readings : ℕ → OAuth2 → OAuth2
  after_readings n s = record s { readings = s.readings + n }

  returned_header :
      (p : Result Text × OAuth2) (header : Text)
      → Returns Kept p
      → p.0 ≡ ok header
      → header ≢ []
      → p.1.auth_header_value ≡ header
  returned_header (ok h, s) header (inl empty) e full = absurd (full (sym (ok_injective e) ∙ empty))
  returned_header (ok h, s) header (inr kept) e full = kept ∙ ok_injective e
  returned_header (raise x, s) header tt e full = absurd (ground arith)

  -- So many calls, one behind the other.
  unfoldable pub calls : ℕ → OAuth2 → List (Result Text) × OAuth2
  unfolding get_auth_header_value
  calls zero s = ([], s)
  calls (suc n) s =
      let called = get_auth_header_value w s in
      let later = calls n called.1 in (called.0 ∷ later.0, later.1)

  calls-Usable :
      (n : ℕ) (s : OAuth2)
      → is_empty s.auth_header_value ≡ false
      → ((k : ℕ) → k < n → w.clock (s.readings + k) ≤ℤ s.token_expiration)
      → calls n s ≡ (replicate n (ok s.auth_header_value), after_readings n s)
  unfolding calls
  calls-Usable zero s kept early = ap (λ r. ([], record s { readings = r })) (omega arith)
  calls-Usable (suc n) s kept early =
      let later =
        calls-Usable n (record s { readings = suc s.readings }) kept
          (λ k h.
            subst (λ r. w.clock r ≤ℤ s.token_expiration) (add_suc k s.readings)
              (early (suc k) (omega arith))) in
      rw
        (
          get_auth_header_value-Usable s (
            kept,
            subst (λ r. w.clock r ≤ℤ s.token_expiration) (add_zero s.readings)
                (early 0 (omega arith)),
          ),
          later,
        )
        (ap (λ r. (replicate (suc n) (ok s.auth_header_value), record s { readings = r }))
          (omega arith))

  -- Once a call has returned a header that is not empty, every later call until the clock is past the
  -- expiration returns the same header, asks neither the token server nor the metadata server, and changes
  -- nothing but the count of the clock's readings.
  pub get_auth_header_value-cached :
      (s : OAuth2) (header : Text) (n : ℕ)
      → (get_auth_header_value w s).0 ≡ ok header
      → header ≢ []
      → ((k : ℕ)
          → k < n
          → w.clock ((get_auth_header_value w s).1.readings + k)
            ≤ℤ (get_auth_header_value w s).1.token_expiration)
      → calls n (get_auth_header_value w s).1
        ≡ (replicate n (ok header), after_readings n (get_auth_header_value w s).1)
  get_auth_header_value-cached s header n e full early =
      let same_header =
        returned_header (get_auth_header_value w s) header (get_auth_header_value-Kept s) e full in
      subst
        (λ h.
          calls n (get_auth_header_value w s).1
          ≡ (replicate n (ok h), after_readings n (get_auth_header_value w s).1))
        same_header
        (calls-Usable n (get_auth_header_value w s).1
          (subst (λ h. is_empty h ≡ false) (sym same_header) (not_empty header full)) early)

-- ===== src/Oauth2/Search.antt =====
-- src/oauth2.cc: every way in which the search for a token ends.
use metadata_agent.Prelude.{
  [], ◌∷◌, arith, ℕ, ◌<◌, suc, Text, Bool, true, false, ◌||◌, Option, none, some, ◌≡◌, ◌≢◌, refl,
  sym, subst, ◌∙◌, ap, ◌⊎◌, inl, inr, is_empty, if◌then◌else◌, codes, leb, Bool-cases,
}
use metadata_agent.Exceptions.{
  Result, ok, raise, Exception, json_exception, system_error, JsonError,
}
use metadata_agent.Json.{Value}
use metadata_agent.Json.Throws.{ThrowsJson}
use metadata_agent.Environment.{Reply, unreachable, replied, Environment, get_metadata_string}
use metadata_agent.Stateful.{Ends, Ends-continue_with, done, lift}
use metadata_agent.Oauth2.{World, OAuth2, token_of_reply}
use metadata_agent.Oauth2.Requests.{
  new_token, or_metadata_token, get_metadata_token, compute_token_from_credentials, request_token,
  post_token_request, no_token_on_error, client_email, private_key,
}
use metadata_agent.Oauth2.Cache.{SameToken}
use metadata_agent.Oauth2.Tokens.{
  JsonParser, emailed, keyed, server_reply, metadata_text, NoServerToken, lost, refused, unreadable,
  no_value, no_key, no_email, ServerToken, BadMetadata, Found,
}

empty_text : (text : Text) → is_empty text ≡ true → text ≡ []
empty_text [] e = refl
empty_text (b ∷ text) e = absurd (ground arith)

full_text : (text : Text) → is_empty text ≡ false → text ≢ []
full_text [] e q = cc
full_text (b ∷ text) e q = cc

one_empty : (key email : Text) → (is_empty key || is_empty email) ≡ true → (key ≡ []) ⊎ (email ≡ [])
one_empty [] email e = inl refl
one_empty (b ∷ key) email e = inr (empty_text email e)

both_full :
    (key email : Text) → (is_empty key || is_empty email) ≡ false → (key ≢ []) × (email ≢ [])
both_full [] email e = absurd (ground arith)
both_full (b ∷ key) email e = (full_text (b ∷ key) refl, full_text email e)

module _ {Num : Type 0} (w : World Num) where
  abbrev IsAsked : OAuth2 → Option (Value Num) → Type 0
  IsAsked u none = NoServerToken w u
  IsAsked u (some v) = ServerToken w u v

  -- What the request to the token server leaves.
  abbrev Asked : OAuth2 → Option (Value Num) → OAuth2 → Type 0
  Asked u token t = SameToken w u t × (t.environment ≡ (keyed w u).1) × IsAsked u token

  parse_reply-Ends :
      (u t : OAuth2) (r : Result (Option (Value Num)))
      → SameToken w u t
      → NoServerToken w u
      → metadata_text w (keyed w u).1 ≢ []
      → w.parse (metadata_text w (keyed w u).1) ≡ r
      → Ends (Found w u) (BadMetadata w u) (r, t)
  parse_reply-Ends u t (ok none) same other full e = (same, (other, inr e))
  parse_reply-Ends u t (ok (some v)) same other full e =
      (same, inr (record { no_other = other; some_text = full; parsed = e }))
  parse_reply-Ends u t (raise x) same other full e = (same, other, e)

  token_of_text-Ends :
      (b : Bool) (u t : OAuth2)
      → is_empty (metadata_text w (keyed w u).1) ≡ b
      → SameToken w u t
      → NoServerToken w u
      → Ends
          (Found w u)
          (BadMetadata w u)
          ((if b then done none else lift (w.parse (metadata_text w (keyed w u).1))) t)
  token_of_text-Ends true u t e same other =
      (same, (other, inl (empty_text (metadata_text w (keyed w u).1) e)))
  token_of_text-Ends false u t e same other =
      parse_reply-Ends u t (w.parse (metadata_text w (keyed w u).1)) same other
        (full_text (metadata_text w (keyed w u).1) e) refl

  get_metadata_token-Ends :
      (u t : OAuth2)
      → SameToken w u t
      → t.environment ≡ (keyed w u).1
      → NoServerToken w u
      → Ends (Found w u) (BadMetadata w u) (get_metadata_token w t)
  unfolding get_metadata_token
  get_metadata_token-Ends u t same q other =
      let after : Environment → OAuth2 = λ environment. record t {
        environment =
            (get_metadata_string w.config w.metadata_server w.variable w.file
              (codes "instance/service-accounts/default/token") environment).1;
      } in
      subst
        (λ environment. Ends (Found w u) (BadMetadata w u) (
          (if is_empty (metadata_text w environment)
              then done none
              else lift (w.parse (metadata_text w environment)))
            (after environment)))
        (sym q)
        (token_of_text-Ends (is_empty (metadata_text w (keyed w u).1)) u (after (keyed w u).1) refl
          same other)

  -- The try block throws what its handlers catch.
  abbrev IsCaught : Exception → Type 0
  IsCaught e = ((x : JsonError) × (e ≡ json_exception x)) ⊎ (e ≡ system_error)

  abbrev IsAnswer : OAuth2 → Result (Option (Value Num)) → Type 0
  IsAnswer u (ok token) = IsAsked u token
  IsAnswer u (raise e) = IsCaught e × NoServerToken w u

  parse-IsAnswer :
      (u : OAuth2) (status : ℕ) (body : Text) (r : Result (Option (Value Num)))
      → (keyed w u).0 ≢ []
      → (emailed w u).0 ≢ []
      → server_reply w u ≡ replied status body
      → status < 300
      → w.parse body ≡ r
      → ThrowsJson r
      → IsAnswer u r
  parse-IsAnswer u status body (ok none) k m q low e json = no_value status body q e
  parse-IsAnswer u status body (ok (some v)) k m q low e json = record {
    some_key = k;
    some_email = m;
    status = status;
    body = body;
    reply = q;
    no_error = low;
    parsed = e;
  }
  parse-IsAnswer u status body (raise x) k m q low e (y, json) =
      (inl (y, json), unreadable status body y q (e ∙ ap raise json))

  token_of_reply-IsAnswer :
      JsonParser w
      → (u : OAuth2) (reply : Reply) → (keyed w u).0 ≢ []
      → (emailed w u).0 ≢ []
      → server_reply w u ≡ reply
      → IsAnswer u (token_of_reply w reply)
  unfolding token_of_reply
  token_of_reply-IsAnswer json u unreachable k m q = (inr refl, lost q)
  token_of_reply-IsAnswer json u (replied status body) k m q = elim (Bool-cases (leb 300 status)) [
    | inl bad ↦ rw bad (inr refl, refused status body q (ground arith))
    | inr fine ↦
        rw fine (parse-IsAnswer u status body (w.parse body) k m q (ground arith) refl (json body))
  ]

  no_token_on_error-Ends :
      (u t : OAuth2) (r : Result (Option (Value Num)))
      → SameToken w u t
      → t.environment ≡ (keyed w u).1
      → IsAnswer u r
      → Ends (Asked u) (λ e t. ⊥) (no_token_on_error (r, t))
  no_token_on_error-Ends u t (ok token) same q h = (same, q, h)
  no_token_on_error-Ends u t (raise e) same q (inl (x, json), other) =
      subst (λ e. Ends (Asked u) (λ e t. ⊥) (no_token_on_error (raise e, t))) (sym json)
        (same, q, other)
  no_token_on_error-Ends u t (raise e) same q (inr system, other) =
      subst (λ e. Ends (Asked u) (λ e t. ⊥) (no_token_on_error (raise e, t))) (sym system)
        (same, q, other)

  request_token-Ends :
      JsonParser w
      → (u : OAuth2) → (keyed w u).0 ≢ []
      → (emailed w u).0 ≢ []
      → Ends
          (Asked u)
          (λ e t. ⊥)
          (no_token_on_error (
            request_token w
              (keyed w u).0
              (emailed w u).0
              (record u { environment = (keyed w u).1 })))
  unfolding request_token post_token_request
  request_token-Ends json u k m =
      no_token_on_error-Ends u
        (record u { environment = (keyed w u).1; readings = suc u.readings; posts = suc u.posts })
        (token_of_reply w (server_reply w u)) (refl, refl) refl
        (token_of_reply-IsAnswer json u (server_reply w u) k m refl)

  missing-NoServerToken :
      (u : OAuth2) → ((keyed w u).0 ≡ []) ⊎ ((emailed w u).0 ≡ []) → NoServerToken w u
  missing-NoServerToken u (inl key) = no_key key
  missing-NoServerToken u (inr email) = no_email email

  with_credentials-Ends :
      JsonParser w
      → (b : Bool) (u : OAuth2) → (is_empty (keyed w u).0 || is_empty (emailed w u).0) ≡ b
      → Ends
          (Asked u)
          (λ e t. ⊥)
          ((if b then done none else λ t.
              no_token_on_error (request_token w (keyed w u).0 (emailed w u).0 t))
            (record u { environment = (keyed w u).1 }))
  with_credentials-Ends json true u e =
      ((refl, refl), refl, missing-NoServerToken u (one_empty (keyed w u).0 (emailed w u).0 e))
  with_credentials-Ends json false u e =
      let (k, m) = both_full (keyed w u).0 (emailed w u).0 e in request_token-Ends json u k m

  compute_token_from_credentials-Ends :
      JsonParser w → (u : OAuth2) → Ends (Asked u) (λ e t. ⊥) (compute_token_from_credentials w u)
  unfolding compute_token_from_credentials client_email private_key
  compute_token_from_credentials-Ends json u =
      with_credentials-Ends json (is_empty (keyed w u).0 || is_empty (emailed w u).0) u refl

  Ends-absurd :
      {A : Type 0} (P : A → OAuth2 → Type 0) (E : Exception → OAuth2 → Type 0)
      (p : Result A × OAuth2)
      → Ends P (λ e t. ⊥) p
      → Ends P E p
  Ends-absurd P E (ok a, t) h = h
  Ends-absurd P E (raise e, t) h = absurd h

  or_metadata_token-Ends :
      (u : OAuth2) (token : Option (Value Num)) (t : OAuth2)
      → Asked u token t
      → Ends (Found w u) (BadMetadata w u) (or_metadata_token w token t)
  or_metadata_token-Ends u none t (same, q, other) = get_metadata_token-Ends u t same q other
  or_metadata_token-Ends u (some v) t (same, q, token) = (same, inl token)

  pub new_token-Ends :
      JsonParser w → (u : OAuth2) → Ends (Found w u) (BadMetadata w u) (new_token w u)
  unfolding new_token
  new_token-Ends json u =
      Ends-continue_with (Asked u) (Found w u) (BadMetadata w u) (or_metadata_token w)
        (compute_token_from_credentials w u)
        (Ends-absurd (Asked u) (BadMetadata w u) (compute_token_from_credentials w u)
          (compute_token_from_credentials-Ends json u))
        (or_metadata_token-Ends u)

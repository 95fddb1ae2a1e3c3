-- ===== src/Oauth2/Outcomes.antt =====
-- src/oauth2.cc: every way in which GetAuthHeaderValue ends.
use metadata_agent.Prelude.{
  ap, ◌∙◌, ℕ, suc, ◌+ℤ◌, ◌-ℤ◌, ◌*ℤ◌, ◌^◌, ℤ, pos, Text, Option, none, some, [], ◌∷◌, ◌++◌, ◌≡◌,
  refl, sym, subst, ◌⊎◌, inl, inr, codes,
}
use metadata_agent.Exceptions.{
  JsonError, Exception, json_exception, Result, ok, raise, ok_injective, bind_returned,
}
use metadata_agent.Json.{Value, Object}
use metadata_agent.Json.Access.{as_object, get_string, get_number}
use metadata_agent.Json.Throws.{
  ThrowsJson, ThrowsJson-bind, as_object-ThrowsJson, get_string-ThrowsJson, get_number-ThrowsJson,
}
use metadata_agent.Timer.{reset}
use metadata_agent.Stateful.{Ends, Ends-continue_with}
use metadata_agent.Oauth2.{World, OAuth2, token_fields}
use metadata_agent.Oauth2.Requests.{get_auth_header_value, renew, use_token, keep_token, new_token}
use metadata_agent.Oauth2.Tokens.{NoReply, Found, JsonParser, IsToken, BadMetadata}
use metadata_agent.Oauth2.Search.{new_token-Ends}
use metadata_agent.Oauth2.Cache.{
  renewing, Usable, SameToken, get_auth_header_value-cases, get_auth_header_value-Usable,
}

module _ {Num : Type 0} (w : World Num) where
  -- The header of a token, and for how many seconds it can be used: the type and the token itself with a space
  -- between them, and the number in its third field.
  pub record Grants (token : Value Num) (header : Text) (expires_in : ℤ) : Type 0 where
    pub fields : Object Num
    pub is_object : as_object token ≡ ok fields
    pub access_token : Text
    pub has_access_token : get_string (codes "access_token") fields ≡ ok access_token
    pub token_type : Text
    pub has_token_type : get_string (codes "token_type") fields ≡ ok token_type
    pub number : Num
    pub has_number : get_number (codes "expires_in") fields ≡ ok number
    pub header_of : header ≡ token_type ++ (32 ∷ access_token)
    pub seconds_of : expires_in ≡ w.long_of number

  token_fields-Grants :
      (token : Value Num) (header : Text) (expires_in : ℤ)
      → token_fields w token ≡ ok (header, expires_in)
      → Grants token header expires_in
  unfolding token_fields
  token_fields-Grants token header expires_in h =
      let (m, h', o) = bind_returned (as_object token) _ h in
      let (a, k1, p) = bind_returned (get_string (codes "access_token") m) _ h' in
      let (b, k2, q) = bind_returned (get_string (codes "token_type") m) _ k1 in
      let (n, e, r) = bind_returned (get_number (codes "expires_in") m) _ k2 in
      record {
        fields = m;
        is_object = o;
        access_token = a;
        has_access_token = p;
        token_type = b;
        has_token_type = q;
        number = n;
        has_number = r;
        header_of = sym (ap (λ (f : Text × ℤ). f.0) (ok_injective e));
        seconds_of = sym (ap (λ (f : Text × ℤ). f.1) (ok_injective e));
      }

  -- A new header: that of the token that is found from a state, used until a minute before the token expires,
  -- from the clock's last reading.
  abbrev pub Fresh : OAuth2 → Text → OAuth2 → Type 0
  Fresh u header t =
      (token : Value Num) × (at : ℕ) × (expires_in : ℤ) × IsToken w u token
      × Grants token header expires_in
      × (t.readings ≡ suc at)
      × (t.auth_header_value ≡ header)
      × (t.token_expiration ≡ w.clock at +ℤ ((expires_in -ℤ pos 60) *ℤ pos (10 ^ 9)))

  -- There is no token: neither server has one, or the fields of the one that is found cannot be read.
  abbrev pub NoToken : OAuth2 → Type 0
  NoToken u =
      NoReply w u
      ⊎ ((token : Value Num) × (x : JsonError) × IsToken w u token
          × (token_fields w token ≡ raise (json_exception x)))

  -- What a call returns: the header that it had and that was still usable, no header as there is no token, or
  -- a new one.
  abbrev pub Answered : OAuth2 → Text → OAuth2 → Type 0
  Answered s header t =
      (SameToken w s t × (header ≡ s.auth_header_value) × Usable w s)
      ⊎ ((SameToken w s t × (header ≡ []) × NoToken (renewing w s)) ⊎ Fresh (renewing w s) header t)

  token_fields-ThrowsJson : (v : Value Num) → ThrowsJson (token_fields w v)
  unfolding token_fields
  token_fields-ThrowsJson v = ThrowsJson-bind (as_object v) _ (as_object-ThrowsJson v) (λ m.
      ThrowsJson-bind (get_string (codes "access_token") m) _
        (get_string-ThrowsJson (codes "access_token") m)
        (λ a.
          ThrowsJson-bind (get_string (codes "token_type") m) _
            (get_string-ThrowsJson (codes "token_type") m)
            (λ b.
              ThrowsJson-bind (get_number (codes "expires_in") m) _
                (get_number-ThrowsJson (codes "expires_in") m) (λ c. tt))))

  -- What a call throws: what the parser does on the metadata server's reply.
  abbrev pub Thrown : OAuth2 → Exception → OAuth2 → Type 0
  Thrown s = BadMetadata w (renewing w s)

  keep_token-Ends :
      (s t : OAuth2) (v : Value Num) (fields : Result (Text × ℤ))
      → SameToken w s t
      → IsToken w (renewing w s) v
      → token_fields w v ≡ fields
      → ThrowsJson fields
      → Ends (Answered s) (Thrown s) (keep_token w fields t)
  unfolding reset
  keep_token-Ends s t v (ok (header, expires_in)) same reply e json = inr (
      inr (
        v,
        t.readings,
        expires_in,
        reply,
        token_fields-Grants v header expires_in e,
        refl,
        refl,
        refl,
      ))
  keep_token-Ends s t v (raise e) same reply fields (x, json) =
      subst (λ e. Ends (Answered s) (Thrown s) (keep_token w (raise e) t)) (sym json)
        (inr (inl (same, refl, inr (v, x, reply, fields ∙ ap raise json))))

  use_token-Ends :
      (s t : OAuth2) (token : Option (Value Num))
      → Found w (renewing w s) token t
      → Ends (Answered s) (Thrown s) (use_token w token t)
  use_token-Ends s t none (same, reply) = inr (inl (same, refl, inl reply))
  use_token-Ends s t (some v) (same, reply) =
      keep_token-Ends s t v (token_fields w v) same reply refl (token_fields-ThrowsJson v)

  renew-Ends : JsonParser w → (s : OAuth2) → Ends (Answered s) (Thrown s) (renew w (renewing w s))
  unfolding renew
  renew-Ends json s =
      Ends-continue_with (Found w (renewing w s)) (Answered s) (Thrown s) (use_token w)
        (new_token w (renewing w s)) (new_token-Ends w json (renewing w s))
        (λ token t found. use_token-Ends s t token found)

  -- With a parser that throws JSON exceptions alone, a call of GetAuthHeaderValue ends in one of four ways. It
  -- returns the header that it had, which was not empty nor expired. It returns a new header, of the token's
  -- type and the token itself with a space between them, which is kept with an expiration of a minute before
  -- the token's; that is the token that the token server replied, with a status below 300, to the request with
  -- the environment's credentials, or else, where a credential is missing or that request gave no token, the
  -- one that the metadata server replied. It returns no header, with the old one and its expiration kept, as
  -- neither server gave a token or the fields of the one found cannot be read. Or it throws what the parser
  -- throws on the metadata server's reply, which is asked for only if the token server gave no token, with
  -- the old header and its expiration kept.
  pub get_auth_header_value-Ends :
      JsonParser w → (s : OAuth2) → Ends (Answered s) (Thrown s) (get_auth_header_value w s)
  get_auth_header_value-Ends json s = elim (get_auth_header_value-cases w s) [
    | inl usable ↦
        subst (Ends (Answered s) (Thrown s)) (sym (get_auth_header_value-Usable w s usable))
          (inl ((refl, refl), refl, usable))
    | inr e ↦ subst (Ends (Answered s) (Thrown s)) (sym e) (renew-Ends json s)
  ]

-- ===== src/Oauth2/Requests.antt =====
-- src/oauth2.cc: the requests for a token, and GetAuthHeaderValue.
use metadata_agent.Prelude.{
  text_ord, suc, ℤ, pos, ◌-ℤ◌, ◌*ℤ◌, ◌^◌, Text, ◌||◌, Option, none, some, [], codes, if◌then◌else◌,
  is_empty,
}
use metadata_agent.Exceptions.{Result, ok, raise, json_exception, system_error}
use metadata_agent.Json.{Value}
use metadata_agent.Timer.{is_expired, reset}
use metadata_agent.Environment.{
  Environment, get_metadata_string, credentials_client_email, credentials_private_key,
}
use metadata_agent.Stateful.{Act, ◌>>=◌, done, lift}
use metadata_agent.Oauth2.{World, OAuth2, token_request, token_of_reply, token_fields}

-- The handlers of ComputeTokenFromCredentials.
abbrev pub no_token_on_error : {A S : Type 0} → Result (Option A) × S → Result (Option A) × S
no_token_on_error (raise (json_exception x), s) = (ok none, s)
no_token_on_error (raise system_error, s) = (ok none, s)
no_token_on_error (r, s) = (r, s)

module _ {Num : Type 0} (w : World Num) where
  abbrev pub Auth : Type 0 → Type 0
  Auth A = Act OAuth2 A

  -- Clock::now().
  abbrev pub now : Auth ℤ
  now s = (ok (w.clock s.readings), record s { readings = suc s.readings })

  unfoldable pub post_token_request : Text → Auth (Option (Value Num))
  unfolding token_of_reply
  post_token_request body s =
      (token_of_reply w (w.token_server s.posts body), record s { posts = suc s.posts })

  -- What stands in the try block of ComputeTokenFromCredentials.
  unfoldable pub request_token : Text → Text → Auth (Option (Value Num))
  unfolding token_request post_token_request
  request_token private_key service_account_email = do
    at ← now
    post_token_request (token_request w private_key service_account_email at)

  -- ComputeTokenFromCredentials.
  abbrev pub of_environment : (Environment → Text × Environment) → Auth Text
  of_environment accessor s =
      let asked = accessor s.environment in (ok asked.0, record s { environment = asked.1 })

  unfoldable pub client_email : Auth Text
  unfolding credentials_client_email
  client_email =
      of_environment (credentials_client_email w.config w.metadata_server w.variable w.file)

  unfoldable pub private_key : Auth Text
  unfolding credentials_private_key
  private_key =
      of_environment (credentials_private_key w.config w.metadata_server w.variable w.file)

  unfoldable pub compute_token_from_credentials : Auth (Option (Value Num))
  unfolding client_email private_key request_token
  compute_token_from_credentials = do
    email ← client_email
    key ← private_key
    if is_empty key || is_empty email then done none else λ s.
        no_token_on_error (request_token key email s)

  -- GetMetadataToken.
  unfoldable pub get_metadata_token : Auth (Option (Value Num))
  unfolding get_metadata_string
  get_metadata_token = do
    token_response ← of_environment (
        get_metadata_string w.config w.metadata_server w.variable w.file
          (codes "instance/service-accounts/default/token"))
    if is_empty token_response then done none else lift (w.parse token_response)

  -- The token from the credentials, and else from the metadata server.
  abbrev pub or_metadata_token : Option (Value Num) → Auth (Option (Value Num))
  or_metadata_token none = get_metadata_token
  or_metadata_token (some token) = done (some token)

  unfoldable pub new_token : Auth (Option (Value Num))
  unfolding compute_token_from_credentials get_metadata_token
  new_token = do token_json ← compute_token_from_credentials; or_metadata_token token_json

  -- A new token is kept until a minute before it expires.
  abbrev pub keep_token : Result (Text × ℤ) → Auth Text
  keep_token (ok (header, expires_in)) s = (
    ok header,
    record s {
      auth_header_value = header;
      token_expiration = reset (w.clock s.readings) ((expires_in -ℤ pos 60) *ℤ pos (10 ^ 9));
      readings = suc s.readings;
    },
  )
  keep_token (raise (json_exception x)) s = (ok [], s)
  keep_token (raise e) s = (raise e, s)

  abbrev pub use_token : Option (Value Num) → Auth Text
  use_token none = done []
  use_token (some token_json) = keep_token (token_fields w token_json)

  unfoldable pub renew : Auth Text
  unfolding new_token token_fields reset
  renew = do token_json ← new_token; use_token token_json

  -- GetAuthHeaderValue. The clock is not read while there is no token.
  unfoldable pub get_auth_header_value : Auth Text
  unfolding renew is_expired
  get_auth_header_value s =
      let read = record s { readings = suc s.readings } in
      if is_empty s.auth_header_value
      then renew s
      else if is_expired s.token_expiration (w.clock s.readings)
      then renew read
      else (ok s.auth_header_value, read)

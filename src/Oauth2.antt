-- ===== src/Oauth2.antt =====
-- src/oauth2.h and the first part of src/oauth2.cc: what the authorization header stands on. The key, the
-- signature, the assertion made with them, the request for a token and the reading of the reply. OpenSSL's
-- calls, the text of a JSON value (yajl's), cpp-netlib's escapes, the token server's replies by the number
-- of the request, the parser, and the clock by the number of the reading are parameters. Times are in
-- nanoseconds.
use metadata_agent.Prelude.{
  text_ord, ℕ, suc, ◌+◌, ℤ, pos, ◌+ℤ◌, ◌*◌, ◌^◌, leb, Text, Bool, Option, none, some, [], ◌∷◌, ◌++◌,
  codes, if◌then◌else◌,
}
use metadata_agent.Exceptions.{Result, ok, raise, system_error, ◌>>=◌}
use metadata_agent.Json.{Value, string, number, object_of}
use metadata_agent.Json.Access.{as_object, get_string, get_number}
use metadata_agent.Rfc3339.{whole_seconds}
use metadata_agent.Base64.{encode}
use metadata_agent.Environment.{Reply, unreachable, replied, Config, Environment}
pub mod Requests
pub mod Cache
pub mod Tokens
pub mod Search
pub mod Outcomes
pub mod Assertion

-- OpenSSL: a memory buffer over a text, the key information read from it, the key of it, whether a text
-- is taken by the digest, and the signature of a text by a key, which may be missing.
pub record Openssl : Type 1 where
  pub Bio : Type 0
  pub KeyInfo : Type 0
  pub Key : Type 0
  pub mem_buf : Text → Option Bio
  pub read_key_info : Bio → Option KeyInfo
  pub key_of : KeyInfo → Option Key
  pub sign_update : Text → Bool
  pub sign_final : Text → Option Key → Option Text

-- What stands outside. `long_of` is the conversion of a JSON number to double and then to long, and
-- `number_of` that of a count of seconds to a JSON number.
pub record World (Num : Type 0) : Type 1 where
  pub config : Config
  pub metadata_server : ℕ → Text → Reply
  pub variable : Option Text
  pub file : Text → Option (Result (Option (Value Num)))
  pub token_endpoint : Text
  pub token_server : ℕ → Text → Reply
  pub parse : Text → Result (Option (Value Num))
  pub to_string : Value Num → Text
  pub encode_fragment : Text → Text
  pub openssl : Openssl
  pub clock : ℕ → ℤ
  pub long_of : Num → ℤ
  pub number_of : ℤ → Num

-- OAuth2, with the requests to the token server and the readings of the clock.
pub record OAuth2 : Type 0 where
  pub environment : Environment
  pub auth_header_value : Text
  pub token_expiration : ℤ
  pub posts : ℕ
  pub readings : ℕ

-- OAuth2's constructor.
abbrev pub new_oauth2 : Environment → OAuth2
new_oauth2 environment = record {
  environment = environment;
  auth_header_value = [];
  token_expiration = pos 0;
  posts = 0;
  readings = 0;
}

abbrev pub default_token_endpoint : Text
default_token_endpoint = codes "https://www.googleapis.com/oauth2/v3/token"

module _ {Num : Type 0} (w : World Num) where
  -- PKey's constructor: no key when a step fails.
  unfoldable pub pkey : Text → Option w.openssl.Key
  pkey private_key_pem = elim (w.openssl.mem_buf private_key_pem) [
    | none ↦ none
    | some buf ↦ elim (w.openssl.read_key_info buf) [
      | none ↦ none
      | some p8inf ↦ w.openssl.key_of p8inf
    ]
  ]

  -- Sign: "" when OpenSSL fails.
  unfoldable pub sign : Text → Option w.openssl.Key → Text
  sign text private_key =
      if w.openssl.sign_update text
      then elim (w.openssl.sign_final text private_key) [ none ↦ [] | some signature ↦ signature ]
      else []

  -- The two parts of a JSON Web Token that are signed.
  unfoldable pub jwt_header : Value Num
  jwt_header = object_of (
      (codes "alg", some (string (codes "RS256")))
      ∷ (codes "typ", some (string (codes "JWT")))
      ∷ [])

  -- The claims, at the time of the assertion.
  unfoldable pub claim_set : Text → ℤ → Value Num
  unfolding whole_seconds
  claim_set service_account_email at = object_of (
      (codes "iss", some (string service_account_email))
      ∷ (codes "scope", some (string (codes "https://www.googleapis.com/auth/monitoring")))
      ∷ (codes "aud", some (string w.token_endpoint))
      ∷ (codes "iat", some (number (w.number_of (whole_seconds at))))
      ∷ (codes "exp", some (number (w.number_of (whole_seconds (at +ℤ pos (3600 * 10 ^ 9))))))
      ∷ [])

  -- What is signed: the encoded header and claims.
  unfoldable pub signed_part : Text → ℤ → Text
  unfolding jwt_header claim_set encode
  signed_part service_account_email at =
      encode (w.to_string jwt_header)
      ++ (b'.' ∷ encode (w.to_string (claim_set service_account_email at)))

  -- The assertion: what is signed, and the encoded signature of it.
  unfoldable pub assertion : Text → Text → ℤ → Text
  unfolding pkey sign signed_part encode
  assertion private_key_pem service_account_email at =
      let signed = signed_part service_account_email at in
      signed ++ (b'.' ∷ encode (sign signed (pkey private_key_pem)))

  unfoldable pub token_request : Text → Text → ℤ → Text
  unfolding assertion
  token_request private_key_pem service_account_email at =
      codes "grant_type="
      ++ w.encode_fragment (codes "urn:ietf:params:oauth:grant-type:jwt-bearer")
      ++ codes "&assertion="
      ++ assertion private_key_pem service_account_email at

  -- The token server's reply.
  unfoldable pub token_of_reply : Reply → Result (Option (Value Num))
  token_of_reply unreachable = raise system_error
  token_of_reply (replied status body) = if leb 300 status then raise system_error else w.parse body

  -- The fields of a token: the header's value, and for how long it can be used.
  unfoldable pub token_fields : Value Num → Result (Text × ℤ)
  unfolding as_object get_string get_number
  token_fields token_json = do
    token ← as_object token_json
    access_token ← get_string (codes "access_token") token
    token_type ← get_string (codes "token_type") token
    expires_in ← get_number (codes "expires_in") token
    ok (token_type ++ (b' ' ∷ access_token), w.long_of expires_in)

-- ===== src/Oauth2/Tokens.antt =====
-- src/oauth2.cc: what a request for a token may find, at the servers that reply to it.
use metadata_agent.Prelude.{[], ℕ, ◌≤◌, ◌<◌, Text, Option, none, some, ◌≡◌, ◌≢◌, ◌⊎◌, codes}
use metadata_agent.Exceptions.{ok, raise, Exception, json_exception, JsonError}
use metadata_agent.Json.{Value}
use metadata_agent.Json.Throws.{ThrowsJson}
use metadata_agent.Environment.{
  Reply, unreachable, replied, Environment, get_metadata_string, credentials_client_email,
  credentials_private_key,
}
use metadata_agent.Oauth2.{World, OAuth2, token_request}
use metadata_agent.Oauth2.Cache.{SameToken}

module _ {Num : Type 0} (w : World Num) where
  -- A parser that throws JSON exceptions alone.
  abbrev pub JsonParser : Type 0
  JsonParser = (text : Text) → ThrowsJson (w.parse text)

  -- The credentials that the environment has in a state, and the environment after it was asked for them.
  abbrev pub emailed : OAuth2 → Text × Environment
  emailed u = credentials_client_email w.config w.metadata_server w.variable w.file u.environment

  abbrev pub keyed : OAuth2 → Text × Environment
  keyed u = credentials_private_key w.config w.metadata_server w.variable w.file (emailed u).1

  -- The token server's reply to the request with these credentials and the clock's next reading.
  abbrev pub server_reply : OAuth2 → Reply
  server_reply u =
      w.token_server u.posts (token_request w (keyed u).0 (emailed u).0 (w.clock u.readings))

  -- The text of the metadata server's reply for the token.
  abbrev pub metadata_text : Environment → Text
  metadata_text environment =
      (get_metadata_string w.config w.metadata_server w.variable w.file
        (codes "instance/service-accounts/default/token") environment).0

  -- The token server is not asked or gives no token: a credential is missing, there is no reply, its status is
  -- one of an error, or its text is no JSON or has no value.
  pub data NoServerToken (u : OAuth2) : Type 0 where
    no_key : (keyed u).0 ≡ [] → NoServerToken u
    no_email : (emailed u).0 ≡ [] → NoServerToken u
    lost : server_reply u ≡ unreachable → NoServerToken u
    refused :
        (status : ℕ) (body : Text)
        → server_reply u ≡ replied status body
        → 300 ≤ status
        → NoServerToken u
    unreadable :
        (status : ℕ) (body : Text) (x : JsonError)
        → server_reply u ≡ replied status body
        → w.parse body ≡ raise (json_exception x)
        → NoServerToken u
    no_value :
        (status : ℕ) (body : Text)
        → server_reply u ≡ replied status body
        → w.parse body ≡ ok none
        → NoServerToken u

  -- The value that the token server's reply has, whose status is below 300.
  pub record ServerToken (u : OAuth2) (v : Value Num) : Type 0 where
    pub some_key : (keyed u).0 ≢ []
    pub some_email : (emailed u).0 ≢ []
    pub status : ℕ
    pub body : Text
    pub reply : server_reply u ≡ replied status body
    pub no_error : status < 300
    pub parsed : w.parse body ≡ ok (some v)

  -- The value that the metadata server's reply has, which is asked for when the token server gives no token.
  pub record MetadataToken (u : OAuth2) (v : Value Num) : Type 0 where
    pub no_other : NoServerToken u
    pub some_text : metadata_text (keyed u).1 ≢ []
    pub parsed : w.parse (metadata_text (keyed u).1) ≡ ok (some v)

  -- The token of a state: the token server's, or else the metadata server's.
  abbrev pub IsToken : OAuth2 → Value Num → Type 0
  IsToken u v = ServerToken u v ⊎ MetadataToken u v

  -- Neither server gives a token.
  abbrev pub NoReply : OAuth2 → Type 0
  NoReply u =
      NoServerToken u
      × ((metadata_text (keyed u).1 ≡ []) ⊎ (w.parse (metadata_text (keyed u).1) ≡ ok none))

  -- The metadata server's reply for the token, which is asked for when the token server gives none, could not
  -- be parsed.
  abbrev pub BadMetadata : OAuth2 → Exception → OAuth2 → Type 0
  BadMetadata u e t =
      SameToken w u t × NoServerToken u × (w.parse (metadata_text (keyed u).1) ≡ raise e)

  abbrev pub IsFound : OAuth2 → Option (Value Num) → Type 0
  IsFound u none = NoReply u
  IsFound u (some v) = IsToken u v

  -- What the search for a token leaves.
  abbrev pub Found : OAuth2 → Option (Value Num) → OAuth2 → Type 0
  Found u token t = SameToken w u t × IsFound u token

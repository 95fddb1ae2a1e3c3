-- ===== src/Environment.antt =====
-- src/environment.cc: what the agent knows of the machine it runs on. The state is the cached fields;
-- the replies of the metadata server, by the number of the request, and the files are parameters.
pub mod Accessors
pub mod Cached
use metadata_agent.Prelude.{
  position, starts_with, text_ord, ℕ, zero, suc, ◌+◌, ◌-◌, Text, Bool, true, false, Option, none,
  some, List, [], ◌∷◌, ◌++◌, codes, if◌then◌else◌, is_empty, length, take, drop, ltb,
}
use metadata_agent.Prelude.Order.{same, nat_ord}
use metadata_agent.Prelude.Map.{has}
use metadata_agent.Exceptions.{Result, ok, raise, json_exception, parse_error, JsonError, ◌>>=◌}
use metadata_agent.Json.{Value, Object}
use metadata_agent.Json.Access.{as_object, get_string}

-- What the metadata server replies, if it can be reached.
pub data Reply : Type 0 where
  unreachable : Reply
  replied : ℕ → Text → Reply

-- Configuration, as far as it is asked here.
pub record Config : Type 0 where
  pub project_id : Text
  pub credentials_file : Text
  pub instance_zone : Text
  pub instance_id : Text
  pub instance_resource_type : Text
  pub kubernetes_cluster_name : Text
  pub kubernetes_cluster_location : Text

pub record Environment : Type 0 where
  pub project_id : Text
  pub zone : Text
  pub instance_id : Text
  pub instance_resource_type : Text
  pub kubernetes_cluster_name : Text
  pub kubernetes_cluster_location : Text
  pub client_email : Text
  pub private_key : Text
  pub credentials_project_id : Text
  pub application_default_credentials_read : Bool
  -- The requests that were made to the metadata server.
  pub requests : ℕ

abbrev pub empty_environment : Environment
empty_environment = record {
  project_id = [];
  zone = [];
  instance_id = [];
  instance_resource_type = [];
  kubernetes_cluster_name = [];
  kubernetes_cluster_location = [];
  client_email = [];
  private_key = [];
  credentials_project_id = [];
  application_default_credentials_read = false;
  requests = 0;
}

-- text.substr(text.rfind(byte) + 1), which is the whole text if the byte is not there.
unfoldable pub after_last : ℕ → Text → Text
after_last byte [] = []
after_last byte (b ∷ text) =
    let rest = after_last byte text in
    elim (position (byte ∷ []) text) [
      | some n ↦ rest
      | none ↦ if same b byte then text else b ∷ text
    ]

-- std::getline over a whole text: the lines without their ends, and none after the last end.
unfoldable pub lines_from : Text → Text → List Text
lines_from line [] = if is_empty line then [] else line ∷ []
lines_from line (b ∷ text) =
    let ended = lines_from [] text in
    let longer = lines_from (line ++ b ∷ []) text in if same b 10 then line ∷ ended else longer

-- The part of a service account's address between the first `@` and `.iam.gserviceaccount.com`. Where
-- the `@` stands behind that, the count of substr wraps around and the rest of the text is taken.
unfoldable pub project_of_email : Text → Option Text
unfolding position
project_of_email email = elim (position (codes ".iam.gserviceaccount.com") email) [
  | none ↦ none
  | some new_style ↦ elim (position (codes "@") email) [
    | none ↦ none
    | some at ↦ some (
        if ltb at new_style
        then take (new_style - at - 1) (drop (suc at) email)
        else drop (suc at) email)
  ]
]

-- The location in the lines of kube-env: that of the first line that begins with `ZONE: `.
unfoldable pub zone_line : List Text → Text
unfolding starts_with position
zone_line [] = []
zone_line (line ∷ lines) =
    let rest = zone_line lines in
    if starts_with line (codes "ZONE: ")
    then elim (position (codes ":") line) [ none ↦ drop 1 line | some n ↦ drop (n + 2) line ]
    else rest

abbrev pub gce_instance_resource_type : Text
gce_instance_resource_type = codes "gce_instance"

module _ {Num : Type 0} (config : Config) (server : ℕ → Text → Reply) (variable : Option Text)
    (file : Text → Option (Result (Option (Value Num)))) where
  -- The text of a reply: none of an error's.
  abbrev pub reply_text : Reply → Text
  reply_text unreachable = []
  reply_text (replied status body) = if ltb status 300 then body else []

  -- GetMetadataString.
  unfoldable pub get_metadata_string : Text → Environment → Text × Environment
  get_metadata_string path e =
      (reply_text (server e.requests path), record e { requests = suc e.requests })

  -- ReadCredentials: `none` where it throws NoCredentials. A file that can be opened is what the parser
  -- makes of its contents.
  abbrev pub credentials_filename : Text
  credentials_filename =
      if is_empty config.credentials_file
      then elim variable [
        | some filename ↦ filename
        | none ↦ codes "/etc/google/auth/application_default_credentials.json"
      ]
      else config.credentials_file

  abbrev pub not_null : Option (Value Num) → Result (Value Num)
  not_null none = raise (json_exception parse_error)
  not_null (some v) = ok v

  unfoldable pub read_credentials : Option (Result (Value Num))
  read_credentials = elim (file credentials_filename) [
    | none ↦ none
    | some parsed ↦ some (parsed >>= not_null)
  ]

  -- The fields of the credentials, each set as soon as it is read; an exception ends the reading.
  unfoldable pub store_project : Object Num → Environment → Environment
  unfolding get_string
  store_project creds e =
      if has (codes "project_id") creds
      then elim (get_string (codes "project_id") creds) [
        | ok project ↦ record e { credentials_project_id = project }
        | raise x ↦ e
      ]
      else e

  unfoldable pub store_credentials : Object Num → Environment → Environment
  unfolding get_string store_project
  store_credentials creds e = elim (get_string (codes "client_email") creds) [
    | raise x ↦ e
    | ok email ↦ elim (get_string (codes "private_key") creds) [
      | raise x ↦ record e { client_email = email }
      | ok key ↦ store_project creds (record e { client_email = email; private_key = key })
    ]
  ]

  unfoldable pub store_parsed : Result (Value Num) → Environment → Environment
  unfolding as_object store_credentials
  store_parsed parsed e = elim (parsed >>= as_object) [
    | raise x ↦ e
    | ok creds ↦ store_credentials creds e
  ]

  -- ReadApplicationDefaultCredentials.
  unfoldable pub read_application_default_credentials : Environment → Environment
  unfolding read_credentials store_parsed
  read_application_default_credentials e =
      if e.application_default_credentials_read
      then e
      else record (elim read_credentials [ none ↦ e | some parsed ↦ store_parsed parsed e ]) {
        application_default_credentials_read = true;
      }

  -- CredentialsClientEmail, CredentialsPrivateKey.
  unfoldable pub credentials_client_email : Environment → Text × Environment
  unfolding read_application_default_credentials
  credentials_client_email e =
      let e' = read_application_default_credentials e in (e'.client_email, e')

  unfoldable pub credentials_private_key : Environment → Text × Environment
  unfolding read_application_default_credentials
  credentials_private_key e =
      let e' = read_application_default_credentials e in (e'.private_key, e')

-- ===== src/Tests/Oauth2.antt =====
-- The authorization header at concrete inputs.
use metadata_agent.Prelude.{
  text_ord, ℤ, pos, Text, true, Option, none, some, [], ◌∷◌, ◌≡◌, refl, codes, ◌+ℤ◌, ◌*ℤ◌, ◌-ℤ◌,
  replicate, map, arith,
}
use metadata_agent.Prelude.Order.{same, list_lt}
use metadata_agent.Prelude.Map.{find, emplace, insert_sorted}
use metadata_agent.Exceptions.{Result, ok, raise, json_exception, parse_error}
use metadata_agent.Json.{Value, string, number, object_of}
use metadata_agent.Environment.{replied, Config, empty_environment}
use metadata_agent.Timer.{reset}
use metadata_agent.Base64.{decode}
use metadata_agent.Stateful.{Ends}
use metadata_agent.Oauth2.{
  Openssl, World, OAuth2, new_oauth2, default_token_endpoint, assertion, sign,
}
use metadata_agent.Oauth2.Requests.{get_auth_header_value}
use metadata_agent.Oauth2.Cache.{calls, after_readings, get_auth_header_value-cached}
use metadata_agent.Oauth2.Outcomes.{Answered, Thrown, get_auth_header_value-Ends}
use metadata_agent.Oauth2.Assertion.{parts, decode-parts-assertion}

abbrev openssl : Openssl
openssl = record {
  Bio = Text;
  KeyInfo = Text;
  Key = Text;
  mem_buf = λ text. some text;
  read_key_info = λ text. some text;
  key_of = λ text. some text;
  sign_update = λ text. true;
  sign_final = λ text key. some (7 ∷ 200 ∷ []);
}

abbrev no_config : Config
no_config = record {
  project_id = [];
  credentials_file = [];
  instance_zone = [];
  instance_id = [];
  instance_resource_type = [];
  kubernetes_cluster_name = [];
  kubernetes_cluster_location = [];
}

abbrev token : Value ℤ
token = object_of (
    (codes "access_token", some (string (codes "a")))
    ∷ (codes "token_type", some (string (codes "Bearer")))
    ∷ (codes "expires_in", some (number (pos 3600)))
    ∷ [])

-- There are no credentials, and the metadata server replies to every request.
abbrev pub world : (Text → Result (Option (Value ℤ))) → World ℤ
world parse = record {
  config = no_config;
  metadata_server = λ n path. replied 200 (codes "{}");
  variable = none;
  file = λ name. none;
  token_endpoint = default_token_endpoint;
  token_server = λ n body. replied 500 [];
  parse = parse;
  to_string = λ v. codes "{}";
  encode_fragment = λ text. text;
  openssl = openssl;
  clock = λ n. pos n;
  long_of = λ n. n;
  number_of = λ n. n;
}

abbrev pub parsed : World ℤ
parsed = world (λ text. ok (some token))

abbrev pub start : OAuth2
start = new_oauth2 empty_environment

get_auth_header_value-cached_example : calls parsed 2 (get_auth_header_value parsed start).1 ≡ (
  replicate 2 (ok (codes "Bearer a")),
  after_readings parsed 2 (get_auth_header_value parsed start).1,
)
unfolding get_auth_header_value codes object_of find emplace insert_sorted same list_lt reset ◌+ℤ◌
    ◌*ℤ◌ ◌-ℤ◌
get_auth_header_value-cached_example =
    get_auth_header_value-cached parsed start (codes "Bearer a") 2 refl (λ e. absurd (ground arith))
      (λ k h. omega arith)

get_auth_header_value-Ends_example :
    Ends (Answered parsed start) (Thrown parsed start) (get_auth_header_value parsed start)
get_auth_header_value-Ends_example = get_auth_header_value-Ends parsed (λ text. tt) start

-- Where the metadata server's reply is no JSON, the exception leaves the call.
abbrev pub unparsable : World ℤ
unparsable = world (λ text. raise (json_exception parse_error))

unparsable_call : (get_auth_header_value unparsable start).0 ≡ raise (json_exception parse_error)
unfolding get_auth_header_value codes object_of find emplace insert_sorted same list_lt
unparsable_call = refl

decode-parts-assertion_example :
    map decode (parts (assertion parsed (codes "key") (codes "email") (pos 0)))
    ≡ codes "{}" ∷ codes "{}" ∷ (7 ∷ 200 ∷ []) ∷ []
unfolding codes sign
decode-parts-assertion_example =
    decode-parts-assertion parsed (codes "key") (codes "email") (pos 0)
      (omega arith, (omega arith, tt)) (omega arith, (omega arith, tt))
      (omega arith, (omega arith, tt))

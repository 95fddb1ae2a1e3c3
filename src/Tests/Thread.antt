-- ===== src/Tests/Thread.antt =====
-- The reporter's thread at a concrete input.
use metadata_agent.Prelude.{Text, text_ord, ℤ, pos, false, true, [], ◌∷◌, ◌≡◌, refl, codes}
use metadata_agent.Prelude.Order.{same, list_lt}
use metadata_agent.Prelude.Map.{emplace, find, insert_sorted}
use metadata_agent.Exceptions.{Exception, raise, json_exception, parse_error}
use metadata_agent.Json.{null, object_of}
use metadata_agent.Store.{Metadata, empty_store, get_metadata_map}
use metadata_agent.Environment.{Environment, empty_environment}
use metadata_agent.Environment.Accessors.{project_id}
use metadata_agent.Configuration.{Configuration, defaults}
use metadata_agent.Oauth2.Requests.{get_auth_header_value}
use metadata_agent.Reporter.{status}
use metadata_agent.Reporter.Thread.{send, ended, Reporter, ThreadRound, report_metadata}
use metadata_agent.Reporter.Endpoint.{endpoint_of, IsReport, send-IsReport}
use metadata_agent.Reporter.Unending.{BadToken, report_metadata-BadToken}
use metadata_agent.Tests.Oauth2.{parsed, unparsable, start}

abbrev entry : Metadata ℤ
entry = record {
  version = codes "0.1";
  is_deleted = false;
  created_at = pos 0;
  collected_at = pos 0;
  metadata = null;
  ignore = false;
}

abbrev reporter : Reporter ℤ
reporter = record {
  auth = start;
  store = record empty_store {
    metadata_map = (record { type = codes "gce_instance"; labels = [] }, entry) ∷ [];
  };
}

abbrev round : ThreadRound ℤ
round = record { replies = λ n. status 200; during = []; expired = true }

report_metadata-BadToken_example :
    (x : Exception) × (ended (raise (json_exception parse_error)) ≡ ended (raise x))
    × BadToken unparsable (λ t. []) (defaults (codes "1")) x
unfolding report_metadata get_metadata_map emplace find insert_sorted defaults same list_lt
report_metadata-BadToken_example =
    report_metadata-BadToken unparsable (λ t. []) (defaults (codes "1"))
      (λ text. (parse_error, refl)) (codes "1") refl (round ∷ []) reporter _
      (ended (raise (json_exception parse_error))) refl

-- What the project is asked for and what is known then.
abbrev project : Text × Environment
project =
    project_id parsed.config parsed.metadata_server parsed.variable parsed.file empty_environment

abbrev standard : Configuration
standard = defaults (codes "1")

send-IsReport_example :
    IsReport parsed
      (λ t. [])
      standard
      (λ n. status 200)
      reporter.store.metadata_map
      (record {
        endpoint = endpoint_of (codes "{}");
        auth_header = codes "Bearer a";
        user_agent = standard.metadata_reporter_user_agent;
      })
      1000
      (send parsed (λ t. []) standard (λ n. status 200) reporter.store.metadata_map start)
unfolding get_auth_header_value project_id object_of emplace find insert_sorted same list_lt
    defaults
send-IsReport_example =
    send-IsReport parsed (λ t. []) standard (codes "1") refl (λ n. status 200)
      reporter.store.metadata_map start
      (get_auth_header_value parsed (record start { environment = project.1 })).1 (codes "{}")
      (codes "Bearer a") (project.1) 999 refl refl refl refl

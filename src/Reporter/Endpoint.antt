-- ===== src/Reporter/Endpoint.antt =====
-- src/reporter.cc: where a report is sent to.
use metadata_agent.Prelude.{
  text_ord, is_empty, false, ℕ, suc, pos, Text, codes, position, starts_with, List, [], ◌∷◌, ◌++◌,
  ◌≡◌, refl, sym, subst, ap, ◌∙◌, All,
}
use metadata_agent.Prelude.Order.{same, list_lt}
use metadata_agent.Prelude.Map.{Map, find}
use metadata_agent.Exceptions.{Result, ok}
use metadata_agent.Resource.{MonitoredResource}
use metadata_agent.Store.{Timestamp, Metadata}
use metadata_agent.Environment.{Environment}
use metadata_agent.Environment.Accessors.{project_id}
use metadata_agent.Format.{substituted, substitute}
use metadata_agent.Format.Pieces.{Piece, IsPlain, substitute-format_of}
use metadata_agent.Configuration.{Configuration, defaults}
use metadata_agent.Oauth2.{World, OAuth2}
use metadata_agent.Oauth2.Requests.{get_auth_header_value}
use metadata_agent.Reporter.{Reply, Destination, Request, Limits, send_metadata, entries_of}
use metadata_agent.Reporter.Batches.{fitting, Delivers, send_metadata-Delivers}
use metadata_agent.Reporter.Bounds.{Fits, send_metadata-Fits}
use metadata_agent.Reporter.Destinations.{send_metadata-IsTo}
use metadata_agent.Reporter.Thread.{SendEnd, limits, ended, send_to, send_at, send}

-- The format of the endpoint that is configured by default, for any version of the agent.
abbrev pub default_format : Text → Text
default_format agent_version = (defaults agent_version).metadata_ingestion_endpoint_format

abbrev pub endpoint_piece : Piece
endpoint_piece = record {
  literal = codes "https://stackdriver.googleapis.com/v1beta2/projects/";
  param = codes "project_id";
}

endpoint_piece-IsPlain : IsPlain endpoint_piece
unfolding codes starts_with position same
endpoint_piece-IsPlain = record { literal_plain = refl; param_plain = refl }

pub substitute-default_format :
    (agent_version project : Text)
    → substitute ((codes "project_id", project) ∷ []) (default_format agent_version)
      ≡ substituted (endpoint_piece.literal ++ (project ++ codes "/resourceMetadata:batchUpdate"))
unfolding codes defaults starts_with position same find list_lt
substitute-default_format agent_version project =
    substitute-format_of ((codes "project_id", project) ∷ []) (endpoint_piece ∷ [])
      (codes "/resourceMetadata:batchUpdate") _ (endpoint_piece-IsPlain, tt) refl refl

-- The endpoint of a project.
abbrev pub endpoint_of : Text → Text
endpoint_of project = endpoint_piece.literal ++ (project ++ codes "/resourceMetadata:batchUpdate")

module _ {Num : Type 0} (w : World Num) (time_string : Timestamp → Text)
    (config : Configuration) where
  send-send_at :
      (replies : ℕ → Reply) (metadata : Map MonitoredResource (Metadata Num)) (a : OAuth2)
      (project : Text) (environment : Environment)
      → is_empty metadata ≡ false
      → project_id w.config w.metadata_server w.variable w.file a.environment
        ≡ (project, environment)
      → send w time_string config replies metadata a
        ≡ send_at w time_string config replies metadata
            (substitute
              ((codes "project_id", project) ∷ [])
              config.metadata_ingestion_endpoint_format)
            (record a { environment = environment })
  unfolding send
  send-send_at replies metadata a project environment full found =
      rw (send, full)
        (ap
          (λ (p : Text × Environment).
            send_at w time_string config replies metadata
              (substitute ((codes "project_id", p.0) ∷ [])
                config.metadata_ingestion_endpoint_format)
              (record a { environment = p.1 }))
          found)

  -- What SendMetadata comes to, when the endpoint and the header are known.
  send-send_metadata :
      (agent_version : Text)
      → config.metadata_ingestion_endpoint_format ≡ default_format agent_version
      → (replies : ℕ → Reply) (metadata : Map MonitoredResource (Metadata Num)) (a b : OAuth2)
        (project auth_header : Text) (environment : Environment)
      → is_empty metadata ≡ false
      → project_id w.config w.metadata_server w.variable w.file a.environment
        ≡ (project, environment)
      → get_auth_header_value w (record a { environment = environment }) ≡ (ok auth_header, b)
      → send w time_string config replies metadata a ≡ (
        (let sent =
              send_metadata w.to_string time_string replies
                (record {
                  endpoint = endpoint_of project;
                  auth_header = auth_header;
                  user_agent = config.metadata_reporter_user_agent;
                })
                (limits w time_string config)
                metadata in
            (ended (sent.0), sent.1)),
        b,
      )
  unfolding send send_at send_to
  send-send_metadata agent_version format replies metadata a b project auth_header environment full
        found asked =
      send-send_at replies metadata a project environment full found
      ∙ ap
          (λ s.
            send_at w time_string config replies metadata s
              (record a { environment = environment }))
          (ap (substitute ((codes "project_id", project) ∷ [])) format
            ∙ substitute-default_format agent_version project)
      ∙ ap (send_to w time_string config replies metadata (endpoint_of project)) asked

  -- What the configuration allows a request.
  abbrev pub allowed : Limits
  allowed = record {
    limit_bytes = config.metadata_ingestion_request_size_limit_bytes;
    limit_count = config.metadata_ingestion_request_size_limit_count;
  }

  -- A report of the map to a project: all of its requests go to the endpoint of the project and carry the
  -- header; each has an entry, at most `count` of them, and no more bytes than the configured limit; and
  -- together they hold the entries that fit into a request at all, in the map's order, or the
  -- first of these if the report ends with an exception.
  pub record IsReport (replies : ℕ → Reply) (metadata : Map MonitoredResource (Metadata Num))
      (d : Destination) (count : ℕ) (sending : (SendEnd × List (Request Num)) × OAuth2)
      : Type 0 where
    pub result : Result (Unit {0})
    pub ended_by_itself : sending.0.0 ≡ ended result
    pub to_project : All (λ (r : Request Num). r.destination ≡ d) sending.0.1
    pub within : All (Fits w.to_string time_string replies d allowed count) sending.0.1
    pub delivers :
        Delivers w.to_string time_string replies d allowed
          (result, sending.0.1)
          (fitting w.to_string time_string replies d allowed
            (entries_of w.to_string time_string replies d allowed metadata))

  -- With the default format of the endpoint and a positive limit of entries, the requests of a report of a map
  -- that is not empty all go to the endpoint of the project that the environment has, with the
  -- authorization header that OAuth2 returns then and the configured user agent. Each has an entry, at most
  -- the configured number of them and, as the code counts, at most the configured number of bytes. Each
  -- entry that fits into a request is sent exactly once, in the order of the map, and no other is; if the
  -- server fails, what was sent is the first part of these.
  pub send-IsReport :
      (agent_version : Text)
      → config.metadata_ingestion_endpoint_format ≡ default_format agent_version
      → (replies : ℕ → Reply) (metadata : Map MonitoredResource (Metadata Num)) (a b : OAuth2)
        (project auth_header : Text) (environment : Environment) (c : ℕ)
      → is_empty metadata ≡ false
      → config.metadata_ingestion_request_size_limit_count ≡ pos (suc c)
      → project_id w.config w.metadata_server w.variable w.file a.environment
        ≡ (project, environment)
      → get_auth_header_value w (record a { environment = environment }) ≡ (ok auth_header, b)
      → IsReport replies metadata
          (record {
            endpoint = endpoint_of project;
            auth_header = auth_header;
            user_agent = config.metadata_reporter_user_agent;
          })
          (suc c)
          (send w time_string config replies metadata a)
  send-IsReport agent_version format replies metadata a b project auth_header environment c full
        count found asked =
      let d : Destination = record {
        endpoint = endpoint_of project;
        auth_header = auth_header;
        user_agent = config.metadata_reporter_user_agent;
      } in
      let sent = send_metadata w.to_string time_string replies d allowed metadata in
      subst (IsReport replies metadata d (suc c))
        (sym (
          send-send_metadata agent_version format replies metadata a b project auth_header
            environment full found asked))
        (record {
          result = sent.0;
          ended_by_itself = refl;
          to_project = send_metadata-IsTo w.to_string time_string replies d allowed metadata;
          within = send_metadata-Fits w.to_string time_string replies d allowed c metadata count;
          delivers = send_metadata-Delivers w.to_string time_string replies d allowed metadata;
        })

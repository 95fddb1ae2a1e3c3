-- ===== src/Reporter/Thread.antt =====
-- src/reporter.cc: SendMetadata with what it reads before its first request, and the reporter's thread. The
-- waits are told by what the timer says after each round; what the first one says is not looked at.
use metadata_agent.Prelude.{
  text_ord, ℕ, Text, codes, Bool, Option, none, some, List, [], ◌∷◌, if◌then◌else◌, is_empty,
}
use metadata_agent.Prelude.Map.{Map}
use metadata_agent.Exceptions.{Result, ok, raise, system_error}
use metadata_agent.Resource.{MonitoredResource}
use metadata_agent.Store.{
  Timestamp, Metadata, MetadataStore, get_metadata_map, purge_deleted_entries,
}
use metadata_agent.Store.Invariant.{Change, apply_all}
use metadata_agent.Environment.Accessors.{project_id}
use metadata_agent.Format.{Substituted, substituted, substitute}
use metadata_agent.Configuration.{Configuration}
use metadata_agent.Oauth2.{World, OAuth2}
use metadata_agent.Oauth2.Requests.{get_auth_header_value}
use metadata_agent.Reporter.{Reply, Request, Limits, send_metadata}

-- How SendMetadata ends: by itself, or by an exception of Substitute.
pub data SendEnd : Type 0 where
  ended : Result (Unit {0}) → SendEnd
  bad_format : Substituted → SendEnd

-- The reporter's own state, and the store.
pub record Reporter (Num : Type 0) : Type 0 where
  pub auth : OAuth2
  pub store : MetadataStore Num

-- What happens around a round: the replies to its requests, the calls of the other threads before it purges,
-- and whether the timer expires after it.
pub record ThreadRound (Num : Type 0) : Type 0 where
  pub replies : ℕ → Reply
  pub during : List (Change Num)
  pub expired : Bool

-- The thread has been stopped, or an exception has ended the program.
pub data ThreadEnd : Type 0 where
  stopped : ThreadEnd
  terminated : SendEnd → ThreadEnd

module _ {Num : Type 0} (w : World Num) (time_string : Timestamp → Text)
    (config : Configuration) where
  abbrev pub limits : Limits
  limits = record {
    limit_bytes = config.metadata_ingestion_request_size_limit_bytes;
    limit_count = config.metadata_ingestion_request_size_limit_count;
  }

  abbrev pub Sending : Type 0
  Sending = (SendEnd × List (Request Num)) × OAuth2

  -- The requests, when the endpoint and the authorization header are known.
  unfoldable pub send_to :
      (ℕ → Reply) → Map MonitoredResource (Metadata Num) → Text → Result Text × OAuth2 → Sending
  unfolding send_metadata
  send_to replies metadata endpoint (raise e, a) = ((ended (raise e), []), a)
  send_to replies metadata endpoint (ok auth_header, a) =
      let sent =
        send_metadata w.to_string time_string replies
          (record {
            endpoint = endpoint;
            auth_header = auth_header;
            user_agent = config.metadata_reporter_user_agent;
          })
          limits metadata in
      ((ended (sent.0), sent.1), a)

  -- The authorization header is asked for when the endpoint is known.
  unfoldable pub send_at :
      (ℕ → Reply) → Map MonitoredResource (Metadata Num) → Substituted → OAuth2 → Sending
  unfolding send_to get_auth_header_value
  send_at replies metadata (substituted endpoint) a =
      send_to replies metadata endpoint (get_auth_header_value w a)
  send_at replies metadata s a = ((bad_format s, []), a)

  -- SendMetadata.
  unfoldable pub send : (ℕ → Reply) → Map MonitoredResource (Metadata Num) → OAuth2 → Sending
  unfolding send_at substitute project_id
  send replies metadata a =
      let project = project_id w.config w.metadata_server w.variable w.file a.environment in
      if is_empty metadata
      then ((ended (ok tt), []), a)
      else send_at replies metadata
          (substitute ((codes "project_id", project.0) ∷ [])
            config.metadata_ingestion_endpoint_format)
          (record a { environment = project.1 })

  -- The `try` block and its handler: the store after it, or the end of the program.
  unfoldable pub try_end : SendEnd → MetadataStore Num → Option (MetadataStore Num)
  try_end (ended (ok u)) s =
      some (if config.metadata_reporter_purge_deleted then purge_deleted_entries s else s)
  try_end (ended (raise system_error)) s = some s
  try_end _ s = none

  -- The loop of ReportMetadata: `none` while it runs.
  unfoldable pub report_metadata :
      List (ThreadRound Num) → Reporter Num → Option (ThreadEnd × Reporter Num)
  unfolding send try_end
  report_metadata [] r = none
  report_metadata (round ∷ rounds) r =
      let sending = send round.replies (get_metadata_map r.store) r.auth in
      let meanwhile = apply_all round.during r.store in
      elim (try_end (sending.0.0) meanwhile) [
        | none ↦ some (terminated (sending.0.0), record { auth = sending.1; store = meanwhile })
        | some store ↦
            if round.expired
            then report_metadata rounds (record { auth = sending.1; store = store })
            else some (stopped, record { auth = sending.1; store = store })
      ]

-- ===== src/Reporter/Unending.antt =====
-- src/reporter.cc: what can end the reporter's thread.
use metadata_agent.Prelude.{
  text_ord, ℕ, Text, codes, Option, none, some, List, [], ◌∷◌, ◌≡◌, refl, sym, subst, ap, ◌∙◌, ◌⊎◌,
  inl, inr, arith, Option-cases, Bool-cases,
}
use metadata_agent.Prelude.Order.{same}
use metadata_agent.Prelude.Map.{Map}
use metadata_agent.Exceptions.{Result, ok, raise, Exception, system_error}
use metadata_agent.Resource.{MonitoredResource}
use metadata_agent.Store.{Timestamp, Metadata, MetadataStore, get_metadata_map}
use metadata_agent.Store.Invariant.{apply_all}
use metadata_agent.Environment.{Environment}
use metadata_agent.Environment.Accessors.{project_id}
use metadata_agent.Stateful.{Ends}
use metadata_agent.Format.{Substituted, substituted, substitute}
use metadata_agent.Configuration.{Configuration}
use metadata_agent.Oauth2.{World, OAuth2}
use metadata_agent.Oauth2.Requests.{get_auth_header_value}
use metadata_agent.Oauth2.Cache.{renewing}
use metadata_agent.Oauth2.Tokens.{JsonParser, keyed, metadata_text}
use metadata_agent.Oauth2.Outcomes.{Answered, Thrown, get_auth_header_value-Ends}
use metadata_agent.Reporter.{Reply}
use metadata_agent.Reporter.Thread.{
  limits, SendEnd, ended, bad_format, Reporter, ThreadRound, ThreadEnd, stopped, terminated,
  send_to, send_at, send, try_end, report_metadata,
}
use metadata_agent.Reporter.Failures.{OnlySystem, send_metadata-OnlySystem}
use metadata_agent.Reporter.Endpoint.{default_format, substitute-default_format}

module _ {Num : Type 0} (w : World Num) (time_string : Timestamp → Text)
    (config : Configuration) where
  -- The reply of the metadata server with the token cannot be parsed.
  abbrev pub BadToken : Exception → Type 0
  BadToken e = (environment : Environment) × (w.parse (metadata_text w environment) ≡ raise e)

  -- A report ends by itself, with an error of the server, or with a bad token.
  abbrev EndsWell : SendEnd → Type 0
  EndsWell (ended (ok u)) = Unit
  EndsWell (ended (raise e)) = (e ≡ system_error) ⊎ BadToken e
  EndsWell (bad_format s) = ⊥

  OnlySystem-EndsWell : (r : Result (Unit {0})) → OnlySystem r → EndsWell (ended r)
  OnlySystem-EndsWell (ok u) h = tt
  OnlySystem-EndsWell (raise e) h = inl h

  send_to-EndsWell :
      (replies : ℕ → Reply) (metadata : Map MonitoredResource (Metadata Num)) (endpoint : Text)
      (a : OAuth2) (asked : Result Text × OAuth2)
      → Ends (Answered w a) (Thrown w a) asked
      → EndsWell (send_to w time_string config replies metadata endpoint asked).0.0
  unfolding send_to
  send_to-EndsWell replies metadata endpoint a (raise e, t) (same, other, bad) =
      inr ((keyed w (renewing w a)).1, bad)
  send_to-EndsWell replies metadata endpoint a (ok header, t) h = OnlySystem-EndsWell _ (
      send_metadata-OnlySystem w.to_string time_string replies
        (record {
          endpoint = endpoint;
          auth_header = header;
          user_agent = config.metadata_reporter_user_agent;
        })
        (limits w time_string config) metadata)

  send_at-EndsWell :
      JsonParser w
      → (replies : ℕ → Reply) (metadata : Map MonitoredResource (Metadata Num)) (endpoint : Text)
        (s : Substituted) (a : OAuth2)
      → s ≡ substituted endpoint
      → EndsWell (send_at w time_string config replies metadata s a).0.0
  unfolding send_at
  send_at-EndsWell json replies metadata endpoint s a e =
      subst (λ s. EndsWell (send_at w time_string config replies metadata s a).0.0) (sym e)
        (send_to-EndsWell replies metadata endpoint a (get_auth_header_value w a)
          (get_auth_header_value-Ends w json a))

  send-EndsWell :
      JsonParser w
      → (agent_version : Text)
      → config.metadata_ingestion_endpoint_format ≡ default_format agent_version
      → (replies : ℕ → Reply) (metadata : Map MonitoredResource (Metadata Num)) (a : OAuth2)
      → EndsWell (send w time_string config replies metadata a).0.0
  unfolding send send_at
  send-EndsWell json agent_version format replies [] a = tt
  send-EndsWell json agent_version format replies (m ∷ metadata) a =
      let project = project_id w.config w.metadata_server w.variable w.file a.environment in
      send_at-EndsWell json replies (m ∷ metadata) _
        (substitute ((codes "project_id", project.0) ∷ [])
          config.metadata_ingestion_endpoint_format)
        (record a { environment = project.1 })
        (ap (substitute ((codes "project_id", project.0) ∷ [])) format
          ∙ substitute-default_format agent_version (project.0))

  is_some : {s : MetadataStore Num} → Path (Option (MetadataStore Num)) (some s) none → ⊥
  is_some e = ground arith

  terminated_by :
      {e f : SendEnd} {r q : Reporter Num}
      → Path (Option (ThreadEnd × Reporter Num)) (some (terminated e, r)) (some (terminated f, q))
      → e ≡ f
  terminated_by h = ground arith

  not_terminated :
      {e : SendEnd} {r q : Reporter Num}
      → Path (Option (ThreadEnd × Reporter Num)) (some (stopped, r)) (some (terminated e, q))
      → ⊥
  not_terminated h = ground arith

  -- What ends the program is no error of the server.
  try_end-BadToken :
      (e : SendEnd) (s : MetadataStore Num)
      → EndsWell e
      → try_end w time_string config e s ≡ none
      → (x : Exception) × (e ≡ ended (raise x)) × BadToken x
  unfolding try_end
  try_end-BadToken (ended (ok u)) s h none_left = absurd (ground arith)
  try_end-BadToken (ended (raise x)) s (inr bad) none_left = (x, refl, bad)
  try_end-BadToken (ended (raise x)) s (inl system) none_left = absurd (
      is_some
        (subst (λ y. try_end w time_string config (ended (raise y)) s ≡ none) system none_left))
  try_end-BadToken (bad_format f) s h none_left = absurd h

  -- With the default format of the endpoint and a parser that throws JSON exceptions alone, the thread ends by
  -- an exception only if the metadata server's reply with the token cannot be parsed: no failure of a
  -- request to the ingestion service or to the token server ends it.
  pub report_metadata-BadToken :
      JsonParser w
      → (agent_version : Text)
      → config.metadata_ingestion_endpoint_format ≡ default_format agent_version
      → (rounds : List (ThreadRound Num)) (r last : Reporter Num) (e : SendEnd)
      → report_metadata w time_string config rounds r ≡ some (terminated e, last)
      → (x : Exception) × (e ≡ ended (raise x)) × BadToken x
  unfolding report_metadata
  report_metadata-BadToken json agent_version format [] r last e h = absurd (ground arith)
  report_metadata-BadToken json agent_version format (round ∷ rounds) r last e h =
      let sending = send w time_string config round.replies (get_metadata_map r.store) r.auth in
      let meanwhile = apply_all round.during r.store in
      let well =
        send-EndsWell json agent_version format round.replies (get_metadata_map r.store) r.auth in
      elim (Option-cases (try_end w time_string config (sending.0.0) meanwhile)) [
        | inl none_left ↦
            subst (λ e. (x : Exception) × (e ≡ ended (raise x)) × BadToken x)
              (terminated_by (rw (none_left, report_metadata) at h))
              (try_end-BadToken (sending.0.0) meanwhile well none_left)
        | inr (store, left) ↦ elim (Bool-cases round.expired) [
          | inl again ↦
              report_metadata-BadToken json agent_version format rounds
                (record { auth = sending.1; store = store }) last e
                (rw (left, again, report_metadata) at h)
          | inr over ↦ absurd (not_terminated (rw (left, over, report_metadata) at h))
        ]
      ]

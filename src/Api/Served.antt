-- ===== src/Api/Served.antt =====
-- What a request to src/api_server.cc is answered with.
use metadata_agent.Prelude.{
  starts_with-append, starts_with, text_ord, ℤ, pos, ◌-ℤ◌, ◌*ℤ◌, ◌^◌, ℕ, Text, true, false, ◌&&◌,
  ◌||◌, Option, none, some, List, [], ◌∷◌, ◌++◌, codes, if◌then◌else◌, is_empty, length, drop, ◌≡◌,
  refl, sym, ◌∙◌, ap, arith, ◌↔◌, ◌≤◌, or_else,
}
use metadata_agent.Prelude.Order.{same, same_iff, same_refl, pair_ord, nat_ord, list_lt}
use metadata_agent.Prelude.Map.{find, has, IsSorted, emplace, emplace_all, insert_sorted}
use metadata_agent.Exceptions.{Result, ok, raise, out_of_range}
use metadata_agent.Json.{Value}
use metadata_agent.Resource.{MonitoredResource, to_json}
use metadata_agent.Store.{MetadataStore, lookup_resource, update_resource}
use metadata_agent.Store.Reads.{find-alias, mentions}
use metadata_agent.Health.{Components, unhealthy_components, is_stale, has-unhealthy_components}
use metadata_agent.Api.{
  Request, Connection, Handler, matches, dispatch, respond, monitored_resource_prefix,
  healthz_prefix, stream_text, component_lines, handle_healthz, not_found, answer_lookup,
  handle_monitored_resource, handlers, serve,
}

pub length_of_starts_with :
    (text prefix : Text) → starts_with text prefix ≡ true → length prefix ≤ length text
unfolding starts_with
length_of_starts_with text [] h = ground arith
length_of_starts_with [] (c ∷ prefix) h = absurd (ground arith)
length_of_starts_with (b ∷ text) (c ∷ prefix) h = ground (arith, length_of_starts_with text prefix)

-- A text does not begin with two prefixes that differ in their second byte.
pub starts_with_apart :
    (text p q : Text) (a b c : ℕ)
    → same b c ≡ false
    → starts_with text (a ∷ b ∷ p) && starts_with text (a ∷ c ∷ q) ≡ false
unfolding starts_with
starts_with_apart [] p q a b c h = refl
starts_with_apart (x ∷ []) p q a b c h = ground arith
starts_with_apart (x ∷ y ∷ text) p q a b c h =
    ground (arith, same_iff y b, same_iff y c, same_iff b c)

drop-prefix : (id : Text) → drop 19 (monitored_resource_prefix ++ id) ≡ id
unfolding codes
drop-prefix id = refl

module _ {Num : Type 0} (render : Value Num → Text) (number_404 : Num) where
  abbrev monitored : MetadataStore Num → Handler
  monitored = handle_monitored_resource render number_404

  -- The two handlers in the order of the map.
  handlers-order :
      (unhealthy : Option Components) (s : MetadataStore Num)
      → handlers render number_404 unhealthy s
        ≡ ((codes "GET", healthz_prefix), handle_healthz unhealthy)
          ∷ ((codes "GET", monitored_resource_prefix), monitored s)
          ∷ []
  unfolding handlers emplace_all emplace insert_sorted find same codes list_lt
  handlers-order unhealthy s = refl

  -- The answer for the resource that an id means, if there is one.
  abbrev pub answer : Option MonitoredResource → Connection
  answer none = respond 404 (codes "application/json") (render (not_found render number_404)) []
  answer (some resource) = respond 200 (codes "application/json") (render (to_json resource)) []

  answer_lookup-lookup_resource :
      (id : Text) (s : MetadataStore Num)
      → answer_lookup render number_404 (lookup_resource id s) []
        ≡ ok (answer (find id s.resource_map))
  unfolding answer_lookup lookup_resource
  answer_lookup-lookup_resource id s =
      elim (find id s.resource_map)
        as (λ o.
          answer_lookup render number_404 (elim o [ none ↦ raise out_of_range | some r ↦ ok r ]) []
          ≡ ok (answer o)) [ none ↦ refl | some r ↦ refl ]

  -- The health handler's answer, the checker being absent or not.
  abbrev pub health_answer : Option Components → Connection
  health_answer none = respond 200 (codes "text/plain") (codes "healthy") []
  health_answer (some []) = respond 200 (codes "text/plain") (codes "healthy") []
  health_answer (some (c ∷ cs)) =
      respond 500 (codes "text/plain")
        (stream_text (codes "unhealthy components:" ++ (10 ∷ [])) (component_lines (c ∷ cs))) []

  handle_healthz-answer :
      (unhealthy : Option Components) (request : Request)
      → handle_healthz unhealthy request [] ≡ ok (health_answer unhealthy)
  unfolding handle_healthz
  handle_healthz-answer none request = refl
  handle_healthz-answer (some []) request = refl
  handle_healthz-answer (some (c ∷ cs)) request = refl

  monitored-answer :
      (s : MetadataStore Num) (request : Request)
      → starts_with (request.destination) monitored_resource_prefix ≡ true
      → monitored s request [] ≡ ok (answer (find (drop 19 (request.destination)) s.resource_map))
  unfolding handle_monitored_resource codes
  monitored-answer s request h = ground (
    arith,
    length_of_starts_with (request.destination) monitored_resource_prefix h,
    answer_lookup-lookup_resource (drop 19 (request.destination)) s,
  )

  -- What a request is to be answered with: by at most one handler, and never with an exception.
  abbrev pub expected : Option Components → MetadataStore Num → Request → Connection
  expected unhealthy s request =
      if matches request (codes "GET", monitored_resource_prefix)
      then answer (find (drop 19 (request.destination)) s.resource_map)
      else if matches request (codes "GET", healthz_prefix)
      then health_answer unhealthy
      else []

  -- A destination does not begin with both prefixes.
  prefixes_apart :
      (text : Text)
      → starts_with text monitored_resource_prefix && starts_with text healthz_prefix ≡ false
  unfolding codes same
  prefixes_apart text =
      starts_with_apart text (codes "onitoredResource/") (codes "ealthz") 47 109 104 refl

  dispatch-expected :
      (unhealthy : Option Components) (s : MetadataStore Num) (request : Request)
      → dispatch
          (((codes "GET", healthz_prefix), handle_healthz unhealthy)
            ∷ ((codes "GET", monitored_resource_prefix), monitored s)
            ∷ [])
          request
          []
        ≡ ok (expected unhealthy s request)
  unfolding dispatch
  dispatch-expected unhealthy s request = ground (
    arith,
    prefixes_apart (request.destination),
    monitored-answer s request,
    handle_healthz-answer unhealthy request,
  )

  expected-get_request :
      (unhealthy : Option Components) (s : MetadataStore Num) (id : Text)
      → expected unhealthy s
          (record { method = codes "GET"; destination = monitored_resource_prefix ++ id })
        ≡ answer (find id s.resource_map)
  expected-get_request unhealthy s id = ground (
    arith,
    same_refl (codes "GET"),
    starts_with-append monitored_resource_prefix id,
    drop-prefix id,
  )

  -- Every request is answered without an exception, and by at most one of the two handlers, although
  -- the dispatcher does not stop at the first: one for a monitored resource with 200 and the resource
  -- that the id means, or with 404 if it means none, one for the health with 200 if no component is
  -- unhealthy and else with 500, and any other not at all.
  pub serve-expected :
      (unhealthy : Option Components) (s : MetadataStore Num) (request : Request)
      → serve render number_404 unhealthy s request ≡ ok (expected unhealthy s request)
  unfolding serve
  serve-expected unhealthy s request =
      ap (λ hs. dispatch hs request []) (handlers-order unhealthy s)
      ∙ dispatch-expected unhealthy s request

  abbrev pub get_request : Text → Request
  get_request id = record { method = codes "GET"; destination = monitored_resource_prefix ++ id }

  -- A GET for an id, whatever its bytes are, after its updater handed the resource to the store with
  -- that id among the aliases, is answered with 200 and the resource's JSON, unless the id already
  -- meant another resource, with which it is answered then.
  pub serve-update_resource :
      (unhealthy : Option Components) (s : MetadataStore Num) (id : Text) (ids : List Text)
      (r : MonitoredResource)
      → mentions ids id ≡ true
      → serve render number_404 unhealthy (update_resource ids r s) (get_request id)
        ≡ ok (answer (or_else (find id s.resource_map) (some r)))
  unfolding update_resource
  serve-update_resource unhealthy s id ids r h =
      serve-expected unhealthy (update_resource ids r s) (get_request id)
      ∙ ground (
        arith,
        h,
        expected-get_request unhealthy (update_resource ids r s) id,
        find-alias id ids r s.resource_map,
      )

is_empty_iff :
    (components : Components)
    → (is_empty components ≡ true) ↔ ((c : Text) → has c components ≡ false)
unfolding find
is_empty_iff [] = (λ e c. refl, λ f. refl)
is_empty_iff ((k, u) ∷ components) =
    (λ e. absurd (ground arith), λ f. ground (arith, f k, same_refl k))

-- The status of the first response.
abbrev pub status_of : Result Connection → Option ℕ
status_of (ok (r ∷ rs)) = some r.status
status_of (ok []) = none
status_of (raise e) = none

status_of-handle_healthz :
    (components : Components) (request : Request)
    → (status_of (handle_healthz (some components) request []) ≡ some 200)
      ↔ (is_empty components ≡ true)
unfolding handle_healthz respond
status_of-handle_healthz [] request = (λ e. refl, λ e. refl)
status_of-handle_healthz (c ∷ cs) request = (λ e. absurd (ground arith), λ e. absurd (ground arith))

-- With a health checker the health request is answered with 200 exactly if no component was marked
-- as unhealthy and no resource type was last collected longer ago than the configured age, in a store
-- whose time stamps are in order.
pub handle_healthz-status :
    {Num : Type 0} (now max_data_age : ℤ) (marked : Components) (s : MetadataStore Num)
    (request : Request)
    → IsSorted s.last_collection_times
    → (status_of (handle_healthz (some (unhealthy_components now max_data_age marked s)) request [])
        ≡ some 200)
      ↔ ((c : Text)
          → has c marked
              || is_stale (now -ℤ max_data_age *ℤ pos (10 ^ 9)) (find c s.last_collection_times)
            ≡ false)
handle_healthz-status now age marked s request h =
    let components = unhealthy_components now age marked s in
    let status = status_of-handle_healthz components request in
    let empty = is_empty_iff components in
    (
      λ e c. sym (has-unhealthy_components now age c marked s h) ∙ empty.0 (status.0 e) c,
      λ f. status.1 (empty.1 (λ c. has-unhealthy_components now age c marked s h ∙ f c)),
    )

-- ===== src/Api.antt =====
-- src/api_server.cc: the dispatcher and the two handlers of the local metadata API. A connection is the
-- list of the responses that were written on it; how a value is written as text is a parameter.
pub mod Served
use metadata_agent.Prelude.{
  starts_with, text_ord, ℤ, ℕ, Text, Bool, true, false, not, ◌&&◌, Option, none, some, List, [],
  ◌∷◌, ◌++◌, codes, if◌then◌else◌, is_empty, length, drop, ltb,
}
use metadata_agent.Prelude.Order.{same, pair_ord, nat_ord}
use metadata_agent.Prelude.Map.{Map, emplace_all}
use metadata_agent.Exceptions.{Result, ok, raise, out_of_range, ◌>>=◌}
use metadata_agent.Json.{Value, string, number, object_of}
use metadata_agent.Resource.{MonitoredResource, to_json}
use metadata_agent.Store.{MetadataStore, lookup_resource}
use metadata_agent.Health.{Components, unhealthy_components}
use metadata_agent.Rfc3339.{decimal}

pub record Request : Type 0 where
  pub method : Text
  pub destination : Text

pub record Response : Type 0 where
  pub status : ℕ
  pub headers : List (Text × Text)
  pub body : Text

abbrev pub Connection : Type 0
Connection = List Response

abbrev pub Handler : Type 0
Handler = Request → Connection → Result Connection

abbrev pub matches : Request → Text × Text → Bool
matches request (method, prefix) =
    same (request.method) method && starts_with (request.destination) prefix

-- Dispatcher::operator(): backwards through the map; a handler that is called does not end the loop.
unfoldable pub dispatch : Map (Text × Text) Handler → Request → Connection → Result Connection
dispatch [] request conn = ok conn
dispatch ((key, handler) ∷ handlers) request conn = dispatch handlers request conn >>= λ written.
    if matches request key then handler request written else ok written

-- set_status, set_headers and write, as all the handlers make them.
unfoldable pub respond : ℕ → Text → Text → Connection → Connection
respond status type body conn =
    conn
    ++ (record {
      status = status;
      headers =
          (codes "Connection", codes "close")
          ∷ (codes "Content-Length", decimal (length body))
          ∷ (codes "Content-Type", type)
          ∷ [];
      body = body;
    }
        ∷ [])

abbrev pub monitored_resource_prefix : Text
monitored_resource_prefix = codes "/monitoredResource/"

abbrev pub healthz_prefix : Text
healthz_prefix = codes "/healthz"

-- std::ostringstream starts to write at the first byte of the text that it is made with.
unfoldable pub stream_text : Text → Text → Text
stream_text initial written = written ++ drop (length written) initial

unfoldable pub component_lines : Components → Text
component_lines [] = []
component_lines ((component, u) ∷ components) = component ++ (10 ∷ []) ++ component_lines components

-- HandleHealthz, with the components that the checker, if there is one, reports.
unfoldable pub handle_healthz : Option Components → Handler
unfolding respond stream_text component_lines
handle_healthz none request conn = ok (respond 200 (codes "text/plain") (codes "healthy") conn)
handle_healthz (some unhealthy) request conn = ok (
    if is_empty unhealthy
    then respond 200 (codes "text/plain") (codes "healthy") conn
    else respond 500 (codes "text/plain")
        (stream_text (codes "unhealthy components:" ++ (10 ∷ [])) (component_lines unhealthy)) conn)

module _ {Num : Type 0} (render : Value Num → Text) (number_404 : Num) where
  abbrev pub not_found : Value Num
  not_found = object_of (
      (codes "status_code", some (number number_404))
      ∷ (codes "error", some (string (codes "Not found")))
      ∷ [])

  unfoldable pub answer_lookup : Result MonitoredResource → Connection → Result Connection
  unfolding respond
  answer_lookup (ok resource) conn =
      ok (respond 200 (codes "application/json") (render (to_json resource)) conn)
  answer_lookup (raise out_of_range) conn =
      ok (respond 404 (codes "application/json") (render not_found) conn)
  answer_lookup (raise e) conn = raise e

  -- HandleMonitoredResource; substr is out of range if the destination is shorter than the prefix.
  unfoldable pub handle_monitored_resource : MetadataStore Num → Handler
  unfolding answer_lookup
  handle_monitored_resource s request conn =
      if ltb (length (request.destination)) (length monitored_resource_prefix)
      then raise out_of_range
      else answer_lookup
          (lookup_resource (drop (length monitored_resource_prefix) (request.destination)) s) conn

  -- The handlers that MetadataApiServer gives its dispatcher.
  unfoldable pub handlers : Option Components → MetadataStore Num → Map (Text × Text) Handler
  unfolding handle_healthz handle_monitored_resource
  handlers unhealthy s =
      emplace_all
        (((codes "GET", monitored_resource_prefix), handle_monitored_resource s)
          ∷ ((codes "GET", healthz_prefix), handle_healthz unhealthy)
          ∷ [])
        []

  -- A request to the server, on a new connection.
  unfoldable pub serve : Option Components → MetadataStore Num → Request → Result Connection
  unfolding dispatch handlers
  serve unhealthy s request = dispatch (handlers unhealthy s) request []

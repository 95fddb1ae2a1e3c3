-- ===== src/Tests/Api.antt =====
-- The API's server and the environment at concrete inputs.
use metadata_agent.Prelude.{
  text_ord, ℕ, zero, suc, ℤ, pos, Text, [], ◌∷◌, ◌≡◌, refl, Option, none, some, codes, or_else,
}
use metadata_agent.Prelude.Order.{same, list_lt}
use metadata_agent.Prelude.Map.{find}
use metadata_agent.Exceptions.{Result, ok}
use metadata_agent.Json.{Value}
use metadata_agent.Store.{update_resource}
use metadata_agent.Api.{Request, serve}
use metadata_agent.Api.Served.{expected, serve-expected, answer, get_request, serve-update_resource}
use metadata_agent.Environment.{Reply, replied, Config, empty_environment}
use metadata_agent.Environment.Accessors.{of_zone, of_instance_id, ask}
use metadata_agent.Environment.Cached.{ask_all, ask-ask_all}
use metadata_agent.Tests.Store.{pod, filled}

-- Values are not looked at here.
abbrev render : Value ℤ → Text
render v = codes "{}"

abbrev health_request : Request
health_request = record { method = codes "GET"; destination = codes "/healthz" }

serve-expected_example :
    serve render (pos 404) (some ((codes "x", tt) ∷ [])) filled health_request
    ≡ ok (expected render (pos 404) (some ((codes "x", tt) ∷ [])) filled health_request)
serve-expected_example =
    serve-expected render (pos 404) (some ((codes "x", tt) ∷ [])) filled health_request

serve-update_resource_example :
    serve render
      (pos 404)
      none
      (update_resource (codes "id" ∷ []) pod filled)
      (get_request render (pos 404) (codes "id"))
    ≡ ok (answer render (pos 404) (or_else (find (codes "id") filled.resource_map) (some pod)))
unfolding codes same list_lt
serve-update_resource_example =
    serve-update_resource render (pos 404) none filled (codes "id") (codes "id" ∷ []) pod refl

abbrev pub config : Config
config = record {
  project_id = [];
  credentials_file = [];
  instance_zone = [];
  instance_id = codes "1";
  instance_resource_type = [];
  kubernetes_cluster_name = [];
  kubernetes_cluster_location = [];
}

-- The first request is answered, and no other.
abbrev pub server : ℕ → Text → Reply
server zero path = replied 200 (codes "projects/p/zones/z")
server (suc n) path = replied 500 []

abbrev pub file : Text → Option (Result (Option (Value ℤ)))
file name = none

ask-ask_all_example :
    ask config server none file of_zone (
      ask_all config server none file
        (of_instance_id ∷ of_zone ∷ [])
        (ask config server none file of_zone empty_environment).1)
    ≡ (
      (ask config server none file of_zone empty_environment).0,
      ask_all config server none file
          (of_instance_id ∷ of_zone ∷ [])
          (ask config server none file of_zone empty_environment).1,
    )
unfolding ask codes same
ask-ask_all_example =
    ask-ask_all config server none file of_zone (of_instance_id ∷ of_zone ∷ []) empty_environment
      refl

-- ===== src/Tests/Reporter.antt =====
-- A report of a store with two entries.
use metadata_agent.Prelude.{
  text_ord, ℕ, zero, suc, ℤ, pos, Text, true, [], ◌∷◌, ◌≡◌, refl, none, All,
}
use metadata_agent.Prelude.Map.{find}
use metadata_agent.Json.{Value}
use metadata_agent.Resource.{resource_ord}
use metadata_agent.Store.{empty_store, get_metadata_map, Timestamp}
use metadata_agent.Store.Invariant.{add_metadata, empty_store-IsValid}
use metadata_agent.Reporter.{
  Reply, status, unreachable, Destination, Limits, send_metadata, entries_of,
}
use metadata_agent.Reporter.Batches.{Delivers, fitting, send_metadata-Delivers}
use metadata_agent.Reporter.Bounds.{Fits, send_metadata-Fits}
use metadata_agent.Reporter.Loop.{Round, report, report_round, report_round-lost_deletion}
use metadata_agent.Tests.Store.{node, dead, dead-IsStorable, filled}

-- Every value takes three bytes.
abbrev text : Value ℤ → Text
text v = 1 ∷ 2 ∷ 3 ∷ []

abbrev stamp : Timestamp → Text
stamp t = []

abbrev here : Destination
here = record { endpoint = []; auth_header = []; user_agent = [] }

-- The second request fails.
abbrev replies : ℕ → Reply
replies zero = status 200
replies (suc n) = unreachable

abbrev limits : Limits
limits = record { limit_bytes = pos 8; limit_count = pos 1 }

send_metadata-Delivers_example :
    Delivers text stamp replies here limits
      (send_metadata text stamp replies here limits filled.metadata_map)
      (fitting text stamp replies here limits
        (entries_of text stamp replies here limits filled.metadata_map))
send_metadata-Delivers_example =
    send_metadata-Delivers text stamp replies here limits filled.metadata_map

send_metadata-Fits_example :
    All
      (Fits text stamp replies here limits 1)
      (send_metadata text stamp replies here limits filled.metadata_map).1
send_metadata-Fits_example =
    send_metadata-Fits text stamp replies here limits 0 filled.metadata_map refl

abbrev quiet : Round ℤ
quiet = record { replies = λ n. status 200; destination = here; during = [] }

abbrev race : Round ℤ
race = record {
  replies = λ n. status 200;
  destination = here;
  during = add_metadata node dead ∷ [];
}

report_round-lost_deletion_example :
    (find node (get_metadata_map (empty_store {Num = ℤ})) ≡ none)
    × (find node (report_round text stamp limits true race empty_store).metadata_map ≡ none)
unfolding report get_metadata_map send_metadata find
report_round-lost_deletion_example =
    report_round-lost_deletion text stamp limits true race node dead empty_store empty_store-IsValid
      dead-IsStorable refl refl refl refl refl

-- ===== src/Reporter/Failures.antt =====
-- src/reporter.cc: what a report's requests can throw.
use metadata_agent.Prelude.{
  text_ord, ℕ, Text, Bool, true, false, List, [], ◌∷◌, ◌≡◌, refl, if◌then◌else◌, is_empty, length,
}
use metadata_agent.Prelude.Map.{Map}
use metadata_agent.Exceptions.{Result, ok, raise, system_error}
use metadata_agent.Json.{Value}
use metadata_agent.Resource.{MonitoredResource}
use metadata_agent.Store.{Timestamp, Metadata}
use metadata_agent.Reporter.{
  Reply, accepted, Destination, Request, Limits, Progress, Outcome, going, aborted,
  send_metadata_request, too_large, is_full, add_entry, then_add, send_entry, send_entries,
  send_rest, send_metadata, entries_of,
}

-- The only exception of a report's requests.
abbrev pub OnlySystem {ℓ} : {A : Type ℓ} → Result A → Type 0
OnlySystem (ok a) = Unit
OnlySystem (raise e) = e ≡ system_error

abbrev OnlyAborted : {Num : Type 0} → Outcome Num → Type 0
OnlyAborted (going p) = Unit
OnlyAborted (aborted e sent) = e ≡ system_error

module _ {Num : Type 0} (to_string : Value Num → Text) (time_string : Timestamp → Text)
    (replies : ℕ → Reply) (d : Destination) (limits : Limits) where
  send_metadata_request-OnlyAborted :
      (entries : List (Value Num)) (sent : List (Request Num))
      → OnlyAborted (send_metadata_request to_string time_string replies d limits entries sent)
  unfolding send_metadata_request
  send_metadata_request-OnlyAborted entries sent = by_reply (accepted (replies (length sent))) _ _
    where
      by_reply :
          (b : Bool) (p : Progress Num) (s : List (Request Num))
          → OnlyAborted (if b then going p else aborted system_error s)
      by_reply true p s = tt
      by_reply false p s = refl

  then_add-OnlyAborted :
      (v : Value Num) (o : Outcome Num)
      → OnlyAborted o
      → OnlyAborted (then_add to_string time_string replies d limits v o)
  then_add-OnlyAborted v (going p) h = tt
  then_add-OnlyAborted v (aborted e sent) h = h

  send_entry-OnlyAborted :
      (v : Value Num) (p : Progress Num)
      → OnlyAborted (send_entry to_string time_string replies d limits v p)
  unfolding send_entry
  send_entry-OnlyAborted v p =
      by_tests (too_large to_string time_string replies d limits v)
        (is_full to_string time_string replies d limits v p)
    where
      by_tests :
          (large full : Bool)
          → OnlyAborted (
              if large
              then going p
              else if full
              then then_add to_string time_string replies d limits v
                  (send_metadata_request to_string time_string replies d limits p.entries p.sent)
              else going (add_entry to_string time_string replies d limits v p))
      by_tests true full = tt
      by_tests false true =
          then_add-OnlyAborted v _ (send_metadata_request-OnlyAborted p.entries p.sent)
      by_tests false false = tt

  send_entries-OnlyAborted :
      (vs : List (Value Num)) (p : Progress Num)
      → OnlyAborted (send_entries to_string time_string replies d limits vs p)
  unfolding send_entries
  send_entries-OnlyAborted [] p = tt
  send_entries-OnlyAborted (v ∷ vs) p =
      after_one (send_entry to_string time_string replies d limits v p) (send_entry-OnlyAborted v p)
        (λ q. send_entries-OnlyAborted vs q)
    where
      after_one :
          (o : Outcome Num)
          → OnlyAborted o
          → ((q : Progress Num)
              → OnlyAborted (send_entries to_string time_string replies d limits vs q))
          → OnlyAborted (elim o [
            | going q ↦ send_entries to_string time_string replies d limits vs q
            | aborted e sent ↦ aborted e sent
          ])
      after_one (going q) h k = k q
      after_one (aborted e sent) h k = h

  send_rest-OnlySystem :
      (o : Outcome Num)
      → OnlyAborted o
      → OnlySystem (send_rest to_string time_string replies d limits o).0
  unfolding send_rest
  send_rest-OnlySystem (aborted e sent) h = h
  send_rest-OnlySystem (going p) h =
      by_pending (is_empty p.entries)
        (send_metadata_request to_string time_string replies d limits p.entries p.sent)
        (send_metadata_request-OnlyAborted p.entries p.sent)
    where
      by_request :
          (o : Outcome Num)
          → OnlyAborted o
          → OnlySystem
              (elim o as (λ x. Result (Unit {0}) × List (Request Num)) [
                | going q ↦ (ok tt, q.sent)
                | aborted e sent ↦ (raise e, sent)
              ]).0
      by_request (going q) h = tt
      by_request (aborted e sent) h = h

      by_pending :
          (b : Bool) (o : Outcome Num)
          → OnlyAborted o
          → OnlySystem
              (if◌then◌else◌ {A = Result (Unit {0}) × List (Request Num)} b
                (ok tt, p.sent)
                (elim o [ going q ↦ (ok tt, q.sent) | aborted e sent ↦ (raise e, sent) ])).0
      by_pending true o h = tt
      by_pending false o h = by_request o h

  pub send_metadata-OnlySystem :
      (m : Map MonitoredResource (Metadata Num))
      → OnlySystem (send_metadata to_string time_string replies d limits m).0
  unfolding send_metadata
  send_metadata-OnlySystem [] = tt
  send_metadata-OnlySystem (e ∷ m) =
      send_rest-OnlySystem _
        (send_entries-OnlyAborted (entries_of to_string time_string replies d limits (e ∷ m)) _)

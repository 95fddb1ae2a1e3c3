-- ===== src/Reporter/Loop.antt =====
-- src/reporter.cc: the rounds of MetadataReporter::ReportMetadata, with what the other threads do to the
-- store between the copy that a round sends and its purge.
use metadata_agent.Prelude.{
  text_ord, ℕ, Text, Bool, true, false, Option, none, List, [], ◌∷◌, ◌≡◌, refl, arith,
  if◌then◌else◌, ap, ◌∙◌,
}
use metadata_agent.Prelude.Order.{same_refl}
use metadata_agent.Prelude.Map.{find}
use metadata_agent.Exceptions.{Result, ok, raise, Exception, system_error}
use metadata_agent.Json.{Value}
use metadata_agent.Resource.{MonitoredResource, resource_ord}
use metadata_agent.Store.{
  Timestamp, Metadata, MetadataStore, get_metadata_map, update_metadata, purge_deleted_entries,
}
use metadata_agent.Store.Reads.{update_metadata_effect}
use metadata_agent.Store.Purge.{
  IsValid, IsStorable, unless_deleted, get_metadata_map-eq, purge_deleted_entries_effect,
}
use metadata_agent.Store.Invariant.{Change, add_metadata, apply_all, update_metadata-IsValid}
use metadata_agent.Reporter.{Reply, Destination, Request, Limits, send_metadata}

-- How a round leaves the loop: it goes on, or an exception that is not caught ends the thread.
abbrev pub caught : Exception → Bool
caught system_error = true
caught e = false

-- What happens around one round: the replies to its requests, the headers that are read for it, and the
-- calls of the other threads before it purges.
pub record Round (Num : Type 0) : Type 0 where
  pub replies : ℕ → Reply
  pub destination : Destination
  pub during : List (Change Num)

module _ {Num : Type 0} (to_string : Value Num → Text) (time_string : Timestamp → Text)
    (limits : Limits) (purge_deleted : Bool) where
  -- The result of a round's SendMetadata and its requests.
  unfoldable pub report : Round Num → MetadataStore Num → Result (Unit {0}) × List (Request Num)
  report r s =
      send_metadata to_string time_string r.replies r.destination limits (get_metadata_map s)

  -- The `try` block of a round, after its report.
  unfoldable pub after_report : Result (Unit {0}) → MetadataStore Num → MetadataStore Num
  after_report (raise e) s = s
  after_report (ok _) s = if purge_deleted then purge_deleted_entries s else s

  unfoldable pub report_round : Round Num → MetadataStore Num → MetadataStore Num
  unfolding report after_report
  report_round r s = after_report (report r s).0 (apply_all r.during s)

  -- What a round leaves of an entry if no other thread changes the store meanwhile.
  abbrev pub left_over : Result (Unit {0}) → Option (Metadata Num) → Option (Metadata Num)
  left_over (raise e) o = o
  left_over (ok _) o = if purge_deleted then unless_deleted o else o

  after_report-left_over :
      (result : Result (Unit {0})) (q : MonitoredResource) (s : MetadataStore Num)
      → IsValid s
      → find q (after_report result s).metadata_map ≡ left_over result (find q s.metadata_map)
  unfolding after_report
  after_report-left_over (raise e) q s v = refl
  after_report-left_over (ok _) q s v = ground (arith, (purge_deleted_entries_effect q s v).0)

  -- A round during which no other thread changes the store removes the deleted entries only if it is
  -- configured to and its report ended without an exception; it leaves every other entry as it was.
  pub report_round-left_over :
      (r : Round Num) (q : MonitoredResource) (s : MetadataStore Num)
      → IsValid s
      → r.during ≡ []
      → find q (report_round r s).metadata_map ≡ left_over (report r s).0 (find q s.metadata_map)
  unfolding report_round apply_all
  report_round-left_over r q s v quiet = rw quiet (after_report-left_over (report r s).0 q s v)

  purged_unseen :
      (result : Result (Unit {0})) (q : MonitoredResource) (e : Metadata Num)
      (s : MetadataStore Num)
      → IsValid s
      → IsStorable e
      → e.is_deleted ≡ true
      → result ≡ ok tt
      → purge_deleted ≡ true
      → find q (after_report result (apply_all (add_metadata q e ∷ []) s)).metadata_map ≡ none
  unfolding apply_all after_report
  purged_unseen result q e s v k gone fine on = ground (
    arith,
    fine,
    on,
    gone,
    (purge_deleted_entries_effect q (update_metadata q e s)
        (update_metadata-IsValid q e s (λ _. k) v)).0,
    (update_metadata_effect q q [] e s k.kept).0,
    same_refl q,
  )

  -- If a resource that the store does not know is reported as deleted by another thread between the
  -- round's copy and its purge, the round's copy does not have it and the purge removes it: no request
  -- ever says that it was deleted.
  pub report_round-lost_deletion :
      (r : Round Num) (q : MonitoredResource) (e : Metadata Num) (s : MetadataStore Num)
      → IsValid s
      → IsStorable e
      → e.is_deleted ≡ true
      → purge_deleted ≡ true
      → r.during ≡ add_metadata q e ∷ []
      → (report r s).0 ≡ ok tt
      → find q s.metadata_map ≡ none
      → (find q (get_metadata_map s) ≡ none) × (find q (report_round r s).metadata_map ≡ none)
  unfolding report_round
  report_round-lost_deletion r q e s v k gone on race fine absent = (
    ap (find q) (get_metadata_map-eq s v) ∙ absent,
    rw race (purged_unseen (report r s).0 q e s v k gone fine on),
  )

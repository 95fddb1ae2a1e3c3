-- ===== src/Reporter.antt =====
-- src/reporter.cc: the requests in which the reporter sends a copy of the metadata map, and its loop.
-- The text of a value (yajl's), the text of a time stamp and the server's replies are parameters; the
-- endpoint, the authorization header and the user agent are read once, before the first request.
pub mod Batches
pub mod Bounds
pub mod Loop
pub mod Thread
pub mod Failures
pub mod Destinations
pub mod Endpoint
pub mod Unending
use metadata_agent.Prelude.{
  text_ord, ℕ, ◌+◌, ℤ, pos, ltb_ℤ, eqb_ℤ, ◌+ℤ◌, pos_part, neg_part, Text, codes, Bool, true, false,
  ◌||◌, Option, none, some, List, [], ◌∷◌, ◌++◌, length, map, if◌then◌else◌, leb, is_empty,
}
use metadata_agent.Prelude.Map.{Map}
use metadata_agent.Exceptions.{Result, ok, raise, Exception, system_error}
use metadata_agent.Json.{Value, string, object_of, array_of}
use metadata_agent.Resource.{MonitoredResource, resource_ord, to_json}
use metadata_agent.Store.{Timestamp, Metadata}

-- What a POST comes to: a response with a status, or an error of the connection.
pub data Reply : Type 0 where
  status : ℕ → Reply
  unreachable : Reply

abbrev pub accepted : Reply → Bool
accepted (status code) = if leb 300 code then false else true
accepted unreachable = false

-- The headers that every request of one report carries.
pub record Destination : Type 0 where
  pub endpoint : Text
  pub auth_header : Text
  pub user_agent : Text

pub record Request (Num : Type 0) : Type 0 where
  pub destination : Destination
  pub entries : List (Value Num)

-- The two size limits of the configuration.
pub record Limits : Type 0 where
  pub limit_bytes : ℤ
  pub limit_count : ℤ

-- The variables of the loop of SendMetadata, and the requests made so far.
pub record Progress (Num : Type 0) : Type 0 where
  pub entries : List (Value Num)
  pub total_size : ℤ
  pub sent : List (Request Num)

-- The loop goes on, or an exception left it after these requests.
pub data Outcome (Num : Type 0) : Type 0 where
  going : Progress Num → Outcome Num
  aborted : Exception → List (Request Num) → Outcome Num

module _ {Num : Type 0} (to_string : Value Num → Text) (time_string : Timestamp → Text) where
  -- The MonitoredResourceMetadata of an entry.
  unfoldable pub metadata_entry : MonitoredResource → Metadata Num → Value Num
  metadata_entry r e = object_of (
      (codes "resource", some (to_json r))
      ∷ (codes "rawContentVersion", some (string e.version))
      ∷ (codes "rawContent", some e.metadata)
      ∷ (codes "state", some (string (if e.is_deleted then codes "DELETED" else codes "ACTIVE")))
      ∷ (codes "createTime", some (string (time_string e.created_at)))
      ∷ (codes "collectTime", some (string (time_string e.collected_at)))
      ∷ [])

  -- The body of a request.
  unfoldable pub request_body : List (Value Num) → Value Num
  request_body entries = object_of ((codes "entries", some (array_of (map some entries))) ∷ [])

  -- The number of bytes of a value's text.
  unfoldable pub size : Value Num → ℤ
  size v = pos (length (to_string v))

  unfoldable pub empty_size : ℤ
  unfolding size request_body
  empty_size = size (request_body [])

  module _ (replies : ℕ → Reply) (d : Destination) (limits : Limits) where
    -- SendMetadataRequest: the request is made, and a status from 300 on is thrown. The replies are
    -- numbered by the requests before.
    unfoldable pub send_metadata_request : List (Value Num) → List (Request Num) → Outcome Num
    send_metadata_request entries sent =
        let sent' : List (Request Num) =
          sent ++ record { destination = d; entries = entries } ∷ [] in
        if accepted (replies (length sent))
        then going (record { entries = []; total_size = empty_size; sent = sent' })
        else aborted system_error sent'

    -- The entry, too large to be sent at all.
    unfoldable pub too_large : Value Num → Bool
    too_large v = ltb_ℤ limits.limit_bytes (empty_size +ℤ size v)

    -- The pending entries have to be sent before this one is added.
    unfoldable pub is_full : Value Num → Progress Num → Bool
    is_full v p =
        eqb_ℤ (pos (length p.entries)) limits.limit_count
        || ltb_ℤ limits.limit_bytes (p.total_size +ℤ size v)

    -- entries.emplace_back(...); total_size += size.
    unfoldable pub add_entry : Value Num → Progress Num → Progress Num
    add_entry v p = record p { entries = p.entries ++ v ∷ []; total_size = p.total_size +ℤ size v }

    abbrev pub then_add : Value Num → Outcome Num → Outcome Num
    then_add v (going p) = going (add_entry v p)
    then_add v (aborted e sent) = aborted e sent

    -- One round of the loop.
    unfoldable pub send_entry : Value Num → Progress Num → Outcome Num
    unfolding too_large is_full send_metadata_request add_entry
    send_entry v p =
        if too_large v
        then going p
        else if is_full v p
        then then_add v (send_metadata_request p.entries p.sent)
        else going (add_entry v p)

    -- The loop over the values.
    unfoldable pub send_entries : List (Value Num) → Progress Num → Outcome Num
    unfolding send_entry
    send_entries [] p = going p
    send_entries (v ∷ vs) p = elim (send_entry v p) [
      | going p' ↦ send_entries vs p'
      | aborted e sent ↦ aborted e sent
    ]

    -- The last request, for what is pending after the loop.
    unfoldable pub send_rest : Outcome Num → Result (Unit {0}) × List (Request Num)
    unfolding send_metadata_request
    send_rest (aborted e sent) = (raise e, sent)
    send_rest (going p) =
        if is_empty p.entries
        then (ok tt, p.sent)
        else elim (send_metadata_request p.entries p.sent) [
          | going p' ↦ (ok tt, p'.sent)
          | aborted e sent ↦ (raise e, sent)
        ]

    -- The entries of the metadata map, in its order.
    abbrev pub entries_of : Map MonitoredResource (Metadata Num) → List (Value Num)
    entries_of = map (λ e. metadata_entry e.0 e.1)

    -- SendMetadata.
    unfoldable pub send_metadata :
        Map MonitoredResource (Metadata Num) → Result (Unit {0}) × List (Request Num)
    unfolding send_entries send_rest metadata_entry
    send_metadata metadata =
        if is_empty metadata
        then (ok tt, [])
        else send_rest (
            send_entries (entries_of metadata)
              (record { entries = []; total_size = empty_size; sent = [] }))

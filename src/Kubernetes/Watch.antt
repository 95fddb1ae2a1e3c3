-- ===== src/Kubernetes/Watch.antt =====
-- src/kubernetes.cc: WatchEventCallback, the Watcher and the loop of WatchMaster, over any state that
-- the callback changes. What stands outside is a function of the number of the connection: what the
-- parser finds in each notification of the connection, by its text or at the end of it, and whether the
-- connection throws a system_error. The timers only end a connection, and the sleep before another one
-- changes no state.
use metadata_agent.Prelude.{
  text_ord, ℕ, zero, suc, ℤ, pos, ltb_ℤ, Text, Bool, ◌&&◌, ◌||◌, not, Option, none, some, List, [],
  ◌∷◌, codes, String, if◌then◌else◌,
}
use metadata_agent.Prelude.Order.{same}
use metadata_agent.Exceptions.{Result, ok, raise, Exception}
use metadata_agent.Json.{Value, Object}
use metadata_agent.Json.Access.{as_object, get_string, get_object}
use metadata_agent.Store.{Timestamp}
use metadata_agent.Stateful.{Act, ◌>>=◌, done, lift}
use metadata_agent.Kubernetes.Query.{skip_json}

-- The values that the parser hands to its callback, and how it ends.
pub record Notification (Num : Type 0) : Type 0 where
  pub values : List (Value Num)
  pub parsed : Result (Unit {0})

pub record WatchConnection (Num : Type 0) : Type 0 where
  pub notifications : List (Notification Num)
  pub fails : Bool

-- The configuration of a watch.
pub record WatchLimits : Type 0 where
  pub retries : ℤ
  pub max_failures : ℤ

-- How a watch ends: after all its rounds, with the QueryException after too many failures, or, with the
-- program, by another exception in the thread of a connection.
pub data WatchEnd : Type 0 where
  all_retries gave_up : WatchEnd
  crashed : Exception → WatchEnd

-- What follows on a round, by what its notifications came to and the failures in a row. There is none
-- in a row after a round that did not fail.
abbrev pub after_round :
    {S : Type 0} → ℤ → Result (Unit {0}) × S → ℕ → Option (WatchEnd × S) → Option (WatchEnd × S)
after_round max (raise e, s) failures rest = some (crashed e, s)
after_round max (ok u, s) zero rest = rest
after_round max (ok u, s) (suc failures) rest =
    if ltb_ℤ max (pos (suc failures)) then some (gave_up, s) else rest

abbrev pub is_type : Text → String → Bool
is_type type name = same type (codes name)

module _ {Num S : Type 0} (now : S → Timestamp)
    (callback : Object Num → Timestamp → Bool → Act S (Unit {0})) where
  -- WatchEventCallback, with the time at which it is called.
  unfoldable pub watch_event_at : Timestamp → Value Num → Act S (Unit {0})
  unfolding as_object get_string get_object
  watch_event_at collected_at raw_watch = do
    watch ← lift (as_object raw_watch)
    type ← lift (get_string (codes "type") watch)
    object ← lift (get_object (codes "object") watch)
    if not (is_type type "MODIFIED") && not (is_type type "ADDED") && not (is_type type "DELETED")
        then done tt
        else callback object collected_at (is_type type "DELETED")

  unfoldable pub watch_event_callback : Value Num → Act S (Unit {0})
  unfolding watch_event_at
  watch_event_callback raw_watch s = watch_event_at (now s) raw_watch s

  -- The parser's calls of it in a notification: the first exception ends the parsing.
  unfoldable pub events_of : List (Value Num) → Result (Unit {0}) → Act S (Unit {0})
  unfolding watch_event_callback
  events_of [] parsed = lift parsed
  events_of (raw_watch ∷ values) parsed = do
    seen ← watch_event_callback raw_watch
    events_of values parsed

  -- The Watcher's call operator, for each notification: a json::Exception is logged.
  unfoldable pub notified : List (Notification Num) → Act S (Unit {0})
  unfolding events_of
  notified [] = done tt
  notified (n ∷ ns) = do seen ← λ s. skip_json tt (events_of n.values n.parsed s); notified ns

  module _ (limits : WatchLimits) (connection : ℕ → WatchConnection Num) where
    -- The condition of the loop.
    abbrev pub goes_on : ℕ → Bool
    goes_on i = not (ltb_ℤ (pos 0) limits.retries) || ltb_ℤ (pos i) limits.retries

    -- The failures in a row, after a round.
    abbrev pub failures_after : ℕ → ℕ → ℕ
    failures_after i failures = if (connection i).fails then suc failures else 0

    -- WatchMaster from the round `i`, after some failures in a row, with fuel: `none` if it still runs.
    unfoldable pub watch_from : ℕ → ℕ → ℕ → S → Option (WatchEnd × S)
    unfolding notified
    watch_from zero i failures s = none
    watch_from (suc fuel) i failures s =
        let seen = notified (connection i).notifications s in
        let now_failures = failures_after i failures in
        let rest = watch_from fuel (suc i) now_failures (seen.1) in
        if goes_on i
        then after_round limits.max_failures seen now_failures rest
        else some (all_retries, s)

    -- WatchMaster.
    unfoldable pub watch_master : ℕ → S → Option (WatchEnd × S)
    unfolding watch_from
    watch_master fuel s = watch_from fuel 0 0 s

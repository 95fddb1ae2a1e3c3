-- ===== src/Health.antt =====
-- src/health_checker.cc: the health checker. Its set of components is in the order of their names.
use metadata_agent.Prelude.{
  text_ord, ℤ, pos, ltb_ℤ, ◌-ℤ◌, ◌*ℤ◌, ◌^◌, Text, Bool, false, ◌||◌, Option, none, some, [], ◌∷◌,
  ◌≡◌, arith, if◌then◌else◌,
}
use metadata_agent.Prelude.Order.{same, same_iff}
use metadata_agent.Prelude.Map.{Map, find, has, emplace, IsSorted}
use metadata_agent.Prelude.Map.Laws.{find-emplace}
use metadata_agent.Prelude.Map.Sorted.{find_of_AllAbove}
use metadata_agent.Store.{Timestamp, MetadataStore, get_last_collection_times}

-- std::set<std::string>.
abbrev pub Components : Type 0
Components = Map Text (Unit {0})

-- SetUnhealthy.
unfoldable pub set_unhealthy : Text → Components → Components
set_unhealthy component unhealthy = emplace component tt unhealthy

-- The loop of UnhealthyComponents: the types whose last collection is before the cutoff are added.
unfoldable pub add_stale : ℤ → Map Text Timestamp → Components → Components
add_stale cutoff [] result = result
add_stale cutoff ((type, collected_at) ∷ times) result =
    add_stale cutoff times (if ltb_ℤ collected_at cutoff then emplace type tt result else result)

-- UnhealthyComponents, at the time `now` in nanoseconds, with the configured age in seconds.
unfoldable pub unhealthy_components :
    {Num : Type 0} → ℤ → ℤ → Components → MetadataStore Num → Components
unfolding add_stale
unhealthy_components now max_data_age unhealthy s =
    add_stale (now -ℤ max_data_age *ℤ pos (10 ^ 9)) (get_last_collection_times s) unhealthy

-- The time stamp, if there is one, is before the cutoff.
abbrev pub is_stale : ℤ → Option Timestamp → Bool
is_stale cutoff none = false
is_stale cutoff (some t) = ltb_ℤ t cutoff

has-add_stale :
    (cutoff : ℤ) (type : Text) (times : Map Text Timestamp) (result : Components)
    → IsSorted times
    → has type (add_stale cutoff times result)
      ≡ has type result || is_stale cutoff (find type times)
unfolding add_stale find
has-add_stale cutoff type [] result h = ground arith
has-add_stale cutoff type ((t, at) ∷ times) result h = ground (
  arith,
  has-add_stale cutoff type times (if ltb_ℤ at cutoff then emplace t tt result else result) h.1,
  find-emplace type t tt result,
  find_of_AllAbove t times h.0,
  same_iff t type,
)

-- A component is reported as unhealthy exactly if it was marked as such, or is a resource type whose
-- last collection is longer ago than the configured age.
pub has-unhealthy_components :
    {Num : Type 0} (now max_data_age : ℤ) (component : Text) (unhealthy : Components)
    (s : MetadataStore Num)
    → IsSorted s.last_collection_times
    → has component (unhealthy_components now max_data_age unhealthy s)
      ≡ has component unhealthy
        || is_stale (now -ℤ max_data_age *ℤ pos (10 ^ 9)) (find component s.last_collection_times)
unfolding unhealthy_components get_last_collection_times
has-unhealthy_components now age component unhealthy s h =
    has-add_stale (now -ℤ age *ℤ pos (10 ^ 9)) component s.last_collection_times unhealthy h

-- Marking a component adds it, and adds or removes no other.
pub has-set_unhealthy :
    (component other : Text) (unhealthy : Components)
    → has other (set_unhealthy component unhealthy) ≡ has other unhealthy || same component other
unfolding set_unhealthy
has-set_unhealthy component other unhealthy =
    ground (arith, find-emplace other component tt unhealthy)

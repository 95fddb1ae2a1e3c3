-- ===== src/Tests/Threads.antt =====
-- Timers, retries, updaters and the health checker at concrete inputs.
use metadata_agent.Prelude.{
  text_ord, ℕ, zero, suc, ℤ, pos, ◌-ℤ◌, ◌*ℤ◌, Text, true, false, ◌||◌, [], ◌∷◌, ◌++◌, ◌≡◌, some,
  map, flatten,
}
use metadata_agent.Prelude.Map.{find, has}
use metadata_agent.Exceptions.{Result, ok, raise, query_exception}
use metadata_agent.Store.Invariant.{apply_all}
use metadata_agent.Retry.{Ending, IsRight, retry, retry-IsRight}
use metadata_agent.Updater.{
  ResourceMetadata, poll_for_metadata, changes, poll_for_metadata-cancelled,
}
use metadata_agent.Health.{unhealthy_components, has-unhealthy_components, is_stale}
use metadata_agent.Tests.Store.{pod, node, live, dead, filled, filled-IsValid}

-- The work fails twice.
abbrev work : ℕ → Result ℕ
work zero = raise query_exception
work (suc zero) = raise query_exception
work (suc (suc n)) = ok n

retry-IsRight_example : (e : Ending ℕ) × (retry work (pos 10) ≡ some e) × IsRight work (pos 10) e
retry-IsRight_example = retry-IsRight work (pos 10)

abbrev found : ResourceMetadata ℤ
found = record { ids = (120 ∷ []) ∷ []; resource = pod; metadata = live }

abbrev lost : ResourceMetadata ℤ
lost = record { ids = []; resource = node; metadata = dead }

poll_for_metadata-cancelled_example :
    poll_for_metadata
      (map (λ results. (results, true)) ((found ∷ []) ∷ []) ++ (lost ∷ [], false) ∷ [])
      filled
    ≡ some (apply_all (flatten (map changes ((found ∷ []) ∷ [])) ++ changes (lost ∷ [])) filled)
poll_for_metadata-cancelled_example =
    poll_for_metadata-cancelled ((found ∷ []) ∷ []) (lost ∷ []) [] filled

has-unhealthy_components_example :
    has {0, 0} {K = Text} (112 ∷ []) (unhealthy_components (pos 100) (pos 0) [] filled)
    ≡ has {0, 0} {K = Text} {V = Unit} (112 ∷ []) []
      || is_stale
          (pos 100 -ℤ pos 0 *ℤ pos 1000000000)
          (find (112 ∷ []) filled.last_collection_times)
has-unhealthy_components_example =
    has-unhealthy_components (pos 100) (pos 0) (112 ∷ []) [] filled filled-IsValid.times_sorted

-- ===== src/Updater.antt =====
-- src/updater.h, src/updater.cc: what an updater does with the results of its queries, the start of an
-- updater, and the polling loop.
use metadata_agent.Prelude.{
  text_ord, ℕ, zero, suc, subst, ℤ, pos, negsuc, ltb_ℤ, ◌<ℤ◌, Text, Bool, true, false, Option, none,
  some, List, [], ◌∷◌, ◌++◌, ◌≡◌, refl, arith, ap, ◌∙◌, if◌then◌else◌, flatten, map, sym,
  append_assoc,
}
use metadata_agent.Exceptions.{Result, ok, raise, Exception, validation_error}
use metadata_agent.Resource.{MonitoredResource}
use metadata_agent.Store.{Metadata, MetadataStore, update_resource, update_metadata}
use metadata_agent.Store.Invariant.{Change, add_resource, add_metadata, apply, apply_all}

-- MetadataUpdater::ResourceMetadata.
pub record ResourceMetadata (Num : Type 0) : Type 0 where
  pub ids : List Text
  pub resource : MonitoredResource
  pub metadata : Metadata Num

module _ {Num : Type 0} where
  -- UpdateResourceCallback and UpdateMetadataCallback.
  unfoldable pub update_resource_callback :
      ResourceMetadata Num → MetadataStore Num → MetadataStore Num
  update_resource_callback result s = update_resource result.ids result.resource s

  unfoldable pub update_metadata_callback :
      ResourceMetadata Num → MetadataStore Num → MetadataStore Num
  update_metadata_callback result s = update_metadata result.resource result.metadata s

  -- The loop over one query's results, in PollForMetadata and in KubernetesUpdater::MetadataCallback.
  unfoldable pub store_results : List (ResourceMetadata Num) → MetadataStore Num → MetadataStore Num
  unfolding update_resource_callback update_metadata_callback
  store_results [] s = s
  store_results (result ∷ results) s =
      store_results results (update_metadata_callback result (update_resource_callback result s))

  -- PollForMetadata: each round stores the results of one query, and the timer's Wait says whether
  -- another follows. The rounds are the query's results with what Wait returns after them; `none`
  -- while the loop still runs.
  unfoldable pub poll_for_metadata :
      List (List (ResourceMetadata Num) × Bool) → MetadataStore Num → Option (MetadataStore Num)
  unfolding store_results
  poll_for_metadata [] s = none
  poll_for_metadata ((results, expired) ∷ rounds) s =
      let s' = store_results results s in
      elim expired [ true ↦ poll_for_metadata rounds s' | false ↦ some s' ]

  -- The changes that the results make, in their order.
  abbrev pub changes : List (ResourceMetadata Num) → List (Change Num)
  changes [] = []
  changes (result ∷ results) =
      add_resource result.ids result.resource
      ∷ add_metadata result.resource result.metadata
      ∷ changes results

  -- Storing the results of a query is exactly these changes to the store.
  pub store_results-apply_all :
      (results : List (ResourceMetadata Num)) (s : MetadataStore Num)
      → store_results results s ≡ apply_all (changes results) s
  unfolding store_results apply_all
  store_results-apply_all [] s = refl
  store_results-apply_all (result ∷ results) s = store_results-apply_all results _

  apply_all-append :
      (cs ds : List (Change Num)) (s : MetadataStore Num)
      → apply_all (cs ++ ds) s ≡ apply_all ds (apply_all cs s)
  unfolding apply_all
  apply_all-append [] ds s = refl
  apply_all-append (c ∷ cs) ds s = apply_all-append cs ds (apply c s)

  -- A polling thread whose timer expires after each of some rounds and is cancelled after the next one
  -- ends there: the store holds the changes of all these rounds, in their order, and no later round
  -- was made.
  pub poll_for_metadata-cancelled :
      (before : List (List (ResourceMetadata Num))) (last : List (ResourceMetadata Num))
      (later : List (List (ResourceMetadata Num) × Bool)) (s : MetadataStore Num)
      → poll_for_metadata (map (λ results. (results, true)) before ++ (last, false) ∷ later) s
        ≡ some (apply_all (flatten (map changes before) ++ changes last) s)
  unfolding poll_for_metadata
  poll_for_metadata-cancelled [] last later s = ap some (store_results-apply_all last s)
  poll_for_metadata-cancelled (results ∷ before) last later s =
      poll_for_metadata-cancelled before last later (store_results results s)
      ∙ ap some (
          ap (apply_all (flatten (map changes before) ++ changes last))
            (store_results-apply_all results s)
          ∙ sym (apply_all-append (changes results) _ s)
          ∙ ap (λ cs. apply_all cs s) (sym (append_assoc (changes results) _ (changes last))))

-- An updater's phases: it was not started, it runs, or the start threw.
pub data Start : Type 0 where
  not_starting : Start
  started : Start
  failed : Exception → Start

-- MetadataUpdater::Start over the methods that the subclasses override.
unfoldable pub start : Result (Unit {0}) → Bool → Result (Unit {0}) → Start
start (raise e) should_start dynamic = failed e
start (ok _) false dynamic = not_starting
start (ok _) true (raise e) = failed e
start (ok _) true (ok _) = started

-- PollingMetadataUpdater::ValidateStaticConfiguration and ShouldStartUpdater, for a period of seconds.
unfoldable pub validate_static_configuration : ℤ → Result (Unit {0})
validate_static_configuration period =
    if ltb_ℤ period (pos 0) then raise validation_error else ok tt

unfoldable pub should_start_updater : ℤ → Bool
should_start_updater period = ltb_ℤ (pos 0) period

-- Start of a PollingMetadataUpdater.
unfoldable pub start_polling : ℤ → Result (Unit {0}) → Start
unfolding start validate_static_configuration should_start_updater
start_polling period dynamic =
    start (validate_static_configuration period) (should_start_updater period) dynamic

-- What the start of a polling updater comes to, by its period and the dynamic validation.
pub data Outcome : ℤ → Result (Unit {0}) → Start → Type 0 where
  negative : {p : ℤ} {d : Result Unit} → p <ℤ pos 0 → Outcome p d (failed validation_error)
  off : {p : ℤ} {d : Result Unit} → p ≡ pos 0 → Outcome p d not_starting
  invalid : {p : ℤ} {e : Exception} → pos 0 <ℤ p → Outcome p (raise e) (failed e)
  running : {p : ℤ} {u : Unit} → pos 0 <ℤ p → Outcome p (ok u) started

start_positive :
    (n : ℕ) (d : Result (Unit {0})) → start_polling (pos (suc n)) d ≡ start (ok tt) true d
unfolding start_polling
start_positive n d = ground arith

start_negative :
    (n : ℕ) (d : Result (Unit {0})) → start_polling (negsuc n) d ≡ failed validation_error
unfolding start_polling
start_negative n d = ground arith

by_validation : (n : ℕ) (d : Result (Unit {0})) → Outcome (pos (suc n)) d (start (ok tt) true d)
unfolding start
by_validation n (ok u) = running (omega arith)
by_validation n (raise e) = invalid (omega arith)

-- A negative period is refused before anything else, a zero period leaves the updater off and skips
-- the dynamic validation, and with a positive period it runs exactly if that validation passes.
pub start_polling-Outcome :
    (period : ℤ) (dynamic : Result Unit) → Outcome period dynamic (start_polling period dynamic)
unfolding start_polling
start_polling-Outcome (pos zero) d = off refl
start_polling-Outcome (pos (suc n)) d =
    subst (Outcome (pos (suc n)) d) (sym (start_positive n d)) (by_validation n d)
start_polling-Outcome (negsuc n) d =
    subst (Outcome (negsuc n) d) (sym (start_negative n d)) (negative (omega arith))

-- ===== src/Kubernetes/Ownership.antt =====
-- The kinds that KindPath of src/kubernetes.cc keeps.
use metadata_agent.Prelude.{text_ord, Text, Option, none, some, List, [], ◌≡◌, refl, ap, arith}
use metadata_agent.Prelude.Order.{same_refl}
use metadata_agent.Prelude.Map.{Map, find, emplace}
use metadata_agent.Prelude.Map.Laws.{find-emplace}
use metadata_agent.Exceptions.{
  Result, ok, raise, Exception, query_exception, non_retriable_error, json_exception, JsonError,
  unknown_kind,
}
use metadata_agent.Json.{Value}
use metadata_agent.Stateful.{continue_with, lift}
use metadata_agent.Kubernetes.{World, KubernetesReader, query_master}
use metadata_agent.Kubernetes.Objects.{kinds_of, or_no_kinds}
use metadata_agent.Kubernetes.KindsKept.{OwnerCall, after, query_master-kinds, Known, after-Known}
use metadata_agent.Kubernetes.Owners.{version_path, kinds_of_version, name_of_kind, kind_path}

-- The exceptions that KindPath handles.
pub data IsHandled : Exception → Type 0 where
  query : IsHandled query_exception
  refused : IsHandled non_retriable_error
  unreadable : (x : JsonError) → IsHandled (json_exception x)

module _ {Num : Type 0} (w : World Num) where
  kinds_of_version-known :
      (version : Text) (kinds : Map Text Text) (r : KubernetesReader Num)
      → find version r.version_to_kind_to_name ≡ some kinds
      → kinds_of_version w version r ≡ (ok kinds, r)
  unfolding kinds_of_version
  kinds_of_version-known version kinds r h = ground (arith, h)

  -- The state after a query for the kinds that failed.
  abbrev pub forgotten : Text → KubernetesReader Num → KubernetesReader Num
  forgotten version r =
      let asked = (query_master w (version_path version) r).1 in
      record asked { version_to_kind_to_name = emplace version [] asked.version_to_kind_to_name }

  or_no_kinds-failed :
      (reply : Result (Option (Value Num))) (e : Exception)
      → IsHandled e
      → reply ≡ raise e
      → or_no_kinds (kinds_of reply) ≡ ok []
  unfolding kinds_of
  or_no_kinds-failed reply e query q = rw q refl
  or_no_kinds-failed reply e refused q = rw q refl
  or_no_kinds-failed reply e (unreadable x) q = rw q refl

  kinds_of_version-failed :
      (version : Text) (r : KubernetesReader Num) (e : Exception)
      → IsHandled e
      → find version r.version_to_kind_to_name ≡ none
      → (query_master w (version_path version) r).0 ≡ raise e
      → kinds_of_version w version r ≡ (ok [], forgotten version r)
  unfolding kinds_of_version
  kinds_of_version-failed version r e handled h q =
      ground (arith, h, or_no_kinds-failed (query_master w (version_path version) r).0 e handled q)

  find-forgotten :
      (version : Text) (r : KubernetesReader Num)
      → find version r.version_to_kind_to_name ≡ none
      → find version (forgotten version r).version_to_kind_to_name ≡ some []
  find-forgotten version r h = ground (
    arith,
    h,
    query_master-kinds w (version_path version) r,
    (let asked = (query_master w (version_path version) r).1 in
        find-emplace version version [] asked.version_to_kind_to_name),
    same_refl version,
  )

  kind_path-Known_none :
      (version other : Text) (r : KubernetesReader Num)
      → Known w version [] r
      → kind_path w version other r ≡ (raise (unknown_kind other), r)
  unfolding kind_path find
  kind_path-Known_none version other r h =
      ap (λ p. continue_with (λ kinds. lift (name_of_kind w version other (find other kinds))) p)
        (kinds_of_version-known version [] r h)

  -- If the query for a version's kinds fails when they are first asked for, with a QueryException, a
  -- NonRetriableError or a reply that is no JSON, no kind of that version is known then; nor is it after any
  -- later queries and searches for kinds and for owners, when a search for one makes no further query.
  pub kind_path-forgotten :
      (version kind : Text) (r : KubernetesReader Num) (e : Exception)
      → IsHandled e
      → find version r.version_to_kind_to_name ≡ none
      → (query_master w (version_path version) r).0 ≡ raise e
      → (kind_path w version kind r ≡ (raise (unknown_kind kind), forgotten version r))
        × ((later : List (OwnerCall Num)) (other : Text)
            → kind_path w version other (after w later (forgotten version r))
              ≡ (raise (unknown_kind other), after w later (forgotten version r)))
  unfolding kind_path find
  kind_path-forgotten version kind r e handled h q = (
    ap (λ p. continue_with (λ kinds. lift (name_of_kind w version kind (find kind kinds))) p)
        (kinds_of_version-failed version r e handled h q),
    λ later other.
        kind_path-Known_none version other (after w later (forgotten version r))
          (after-Known w version [] later (forgotten version r) (find-forgotten version r h)),
  )

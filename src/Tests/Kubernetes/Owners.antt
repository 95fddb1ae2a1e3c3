-- ===== src/Tests/Kubernetes/Owners.antt =====
-- The search for owners at concrete inputs.
use metadata_agent.Prelude.{text_ord, ℤ, Text, List, [], ◌∷◌, codes, ◌≡◌, refl, arith, position}
use metadata_agent.Prelude.Order.{same, list_lt}
use metadata_agent.Prelude.Map.{find, insert_sorted}
use metadata_agent.Exceptions.{ok, raise, query_exception, unknown_kind, stack_overflow}
use metadata_agent.Json.{Value, to_items, to_fields, entries, elements}
use metadata_agent.Json.Clone.{clone}
use metadata_agent.Json.Access.{as_object, get_string, get_object, get_array, get_boolean}
use metadata_agent.Kubernetes.{KubernetesReader, query_master, master_result, api_token}
use metadata_agent.Kubernetes.Objects.{
  controller_of, first_controller, is_controller, owner_ref_of, uid_of, OwnerRef,
}
use metadata_agent.Kubernetes.Owners.{kind_path, find_top_level_controller, get_owner, owner_of_ref}
use metadata_agent.Kubernetes.KindsKept.{OwnerCall, after}
use metadata_agent.Kubernetes.Ownership.{query, forgotten, kind_path-forgotten}
use metadata_agent.Kubernetes.Chains.{find_top_level_controller-cycle}
use metadata_agent.Kubernetes.OwnerCache.{OwnersMatch, owner_of_ref-OwnersMatch}
use metadata_agent.Tests.Kubernetes.{reference, controlled_by, silent, fresh}

kind_path-forgotten_example :
    (kind_path silent (codes "v1") (codes "Node") fresh
      ≡ (raise (unknown_kind (codes "Node")), forgotten silent (codes "v1") fresh))
    × ((later : List (OwnerCall ℤ)) (other : Text)
        → kind_path silent
            (codes "v1")
            other
            (after silent later (forgotten silent (codes "v1") fresh))
          ≡ (raise (unknown_kind other), after silent later (forgotten silent (codes "v1") fresh)))
unfolding find query_master master_result api_token
kind_path-forgotten_example =
    kind_path-forgotten silent (codes "v1") (codes "Node") fresh query_exception query refl refl

abbrev in_cycle : KubernetesReader ℤ
in_cycle = record fresh {
  owners =
      (codes "v/K/a", controlled_by (codes "b")) ∷ (codes "v/K/b", controlled_by (codes "a")) ∷ [];
}

find_top_level_controller-cycle_example :
    find_top_level_controller silent 50 [] (controlled_by (codes "b")) in_cycle
    ≡ (raise stack_overflow, in_cycle)
unfolding controller_of first_controller is_controller get_owner owner_of_ref owner_ref_of clone
    as_object get_object get_array get_string get_boolean entries to_fields to_items elements find
    same list_lt codes insert_sorted
find_top_level_controller-cycle_example =
    find_top_level_controller-cycle silent 50 [] (controlled_by (codes "b"))
      (controlled_by (codes "a")) in_cycle (reference (codes "b")) (reference (codes "a")) refl refl
      refl refl

no_owners : OwnersMatch {Num = ℤ} []
unfolding find
no_owners key owner e = absurd (ground arith)

abbrev owner_a : OwnerRef
owner_a = record { api_version = codes "v"; kind = codes "K"; name = codes "n"; uid = codes "a" }

owner_of_ref-OwnersMatch_example :
    OwnersMatch (owner_of_ref silent [] owner_a fresh).1.owners
    × ((v : Value ℤ) → (owner_of_ref silent [] owner_a fresh).0 ≡ ok v → uid_of v ≡ ok owner_a.uid)
unfolding position codes same list_lt
owner_of_ref-OwnersMatch_example = owner_of_ref-OwnersMatch silent [] owner_a fresh refl no_owners

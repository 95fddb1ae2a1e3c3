-- ===== src/Kubernetes/Stamps.antt =====
-- What GetPodAndContainerMetadata of src/kubernetes.cc returns for a pod.
use metadata_agent.Prelude.{
  text_ord, ℕ, suc, ◌+◌, Text, Bool, false, Option, List, [], ◌∷◌, codes, ◌≡◌, refl, ◌∙◌, ap, arith,
  All, All-append, length, length-append,
}
use metadata_agent.Prelude.Map.{Map}
use metadata_agent.Exceptions.{Result, ok}
use metadata_agent.Json.{Value, Object}
use metadata_agent.Json.Access.{get_string, get_object, get_array}
use metadata_agent.Store.{Timestamp}
use metadata_agent.Updater.{ResourceMetadata}
use metadata_agent.Stateful.{
  continue_with, lift, Returns, Returns-continue_with, Returns-then, Returns-of_known, Returns-ok,
}
use metadata_agent.Kubernetes.{World, KubernetesReader}
use metadata_agent.Kubernetes.Metadata.{get_pod_metadata, get_container_metadata}
use metadata_agent.Kubernetes.Pods.{
  container_of, containers_of, statuses_of, compute_pod_associations, containers_and_pod,
  get_pod_and_container_metadata,
}

module _ {Num : Type 0} (w : World Num) where
  abbrev pub Stamped : Timestamp → Bool → ResourceMetadata Num → Type 0
  Stamped collected_at is_deleted x =
      (x.metadata.collected_at ≡ collected_at)
      × (x.metadata.is_deleted ≡ is_deleted)
      × (x.metadata.ignore ≡ false)

  Stamped-get_pod_metadata :
      (pod : Object Num) (a : Option (Value Num)) (t : Timestamp) (del : Bool)
      (r : KubernetesReader Num)
      → Returns (λ x s. Stamped t del x) (get_pod_metadata w pod a t del r)
  unfolding get_pod_metadata
  Stamped-get_pod_metadata pod a t del r = ground arith

  Stamped-get_container_metadata :
      (pod spec : Object Num) (status : Option (Object Num)) (a : Option (Value Num))
      (t : Timestamp) (del : Bool) (r : KubernetesReader Num)
      → Returns (λ x s. Stamped t del x) (get_container_metadata w pod spec status a t del r)
  unfolding get_container_metadata
  Stamped-get_container_metadata pod spec status a t del r = ground arith

  Stamped-container_of :
      (pod : Object Num) (statuses : Map Text (Object Num)) (a : Option (Value Num)) (t : Timestamp)
      (del : Bool) (c_spec : Value Num) (r : KubernetesReader Num)
      → Returns (λ x s. Stamped t del x) (container_of w pod statuses a t del c_spec r)
  unfolding container_of
  Stamped-container_of pod statuses a t del c_spec r = grind (arith, Stamped-get_container_metadata)

  -- One result for each container.
  abbrev pub AllStamped :
      Timestamp → Bool → ℕ → List (ResourceMetadata Num) → KubernetesReader Num → Type 0
  AllStamped t del n xs s = (length xs ≡ n) × All (Stamped t del) xs

  AllStamped-containers_of :
      (t : Timestamp) (del : Bool)
      (f : Value Num → KubernetesReader Num → Result (ResourceMetadata Num) × KubernetesReader Num)
      → ((c : Value Num) (s : KubernetesReader Num) → Returns (λ x s'. Stamped t del x) (f c s))
      → (cs : List (Value Num)) (r : KubernetesReader Num)
      → Returns (AllStamped t del (length cs)) (containers_of w f cs r)
  unfolding containers_of
  AllStamped-containers_of t del f h [] r = (refl, tt)
  AllStamped-containers_of t del f h (c ∷ cs) r =
      Returns-then (λ x s. Stamped t del x) (AllStamped t del (suc (length cs)))
        (λ x. λ s. continue_with (λ xs. λ s'. (ok (x ∷ xs), s')) (containers_of w f cs s)) (f c r)
        (h c r)
        (λ x s stamped.
          Returns-then (AllStamped t del (length cs)) (AllStamped t del (suc (length cs)))
            (λ xs. λ s'. (ok (x ∷ xs), s')) (containers_of w f cs s)
            (AllStamped-containers_of t del f h cs s)
            (λ xs s' all. (ap suc all.0, (stamped, all.1))))

  pub Stamped-containers_and_pod :
      (pod : Object Num) (a : Option (Value Num)) (t : Timestamp) (del : Bool)
      (specs : List (Value Num)) (statuses : Map Text (Object Num)) (r : KubernetesReader Num)
      → Returns
          (AllStamped t del (length specs + 1))
          (containers_and_pod w pod a t del specs statuses r)
  unfolding containers_and_pod
  Stamped-containers_and_pod pod a t del specs statuses r =
      Returns-then (AllStamped t del (length specs)) (AllStamped t del (length specs + 1)) _
        (containers_of w (container_of w pod statuses a t del) specs r)
        (AllStamped-containers_of t del _ (Stamped-container_of pod statuses a t del) specs r)
        (λ xs s all.
          Returns-then (λ x s'. Stamped t del x) (AllStamped t del (length specs + 1)) _
            (get_pod_metadata w pod a t del s) (Stamped-get_pod_metadata pod a t del s)
            (λ x s' stamped. (
              length-append xs (x ∷ []) ∙ ap (λ n. n + 1) all.0,
              All-append {A = ResourceMetadata Num} (Stamped t del) xs (x ∷ []) all.1 (stamped, tt),
            )))

  AllStamped-get_pod_and_container_metadata :
      (pod spec : Object Num) (specs : List (Value Num)) (t : Timestamp) (del : Bool)
      → get_object (codes "spec") pod ≡ ok spec
      → get_array (codes "containers") spec ≡ ok specs
      → (r : KubernetesReader Num)
      → Returns (AllStamped t del (length specs + 1)) (get_pod_and_container_metadata w pod t del r)
  unfolding get_pod_and_container_metadata
  AllStamped-get_pod_and_container_metadata pod spec specs t del e c r =
      let P = AllStamped t del (length specs + 1) in
      Returns-continue_with P _ (compute_pod_associations w pod r) (λ a s.
        Returns-continue_with P _ (lift (get_object (codes "metadata") pod) s) (λ metadata s.
          Returns-continue_with P _ (lift (get_string (codes "name") metadata) s) (λ pod_name s.
            Returns-continue_with P _ (lift (get_string (codes "uid") metadata) s) (λ pod_id s.
              Returns-of_known P _ (get_object (codes "spec") pod) spec s e (
                Returns-continue_with P _ (lift (get_object (codes "status") pod) s) (λ status s.
                  Returns-of_known P _ (get_array (codes "containers") spec) specs s c (
                    Returns-continue_with P _ (statuses_of w status s)
                      (λ statuses s. Stamped-containers_and_pod pod a t del specs statuses s))))))))

  -- What GetPodAndContainerMetadata returns has one result for each container in the pod's spec and one
  -- for the pod, each with the time of the query and the mark of deletion it was called with, and to be
  -- reported.
  pub get_pod_and_container_metadata-Stamped :
      (pod spec : Object Num) (specs : List (Value Num)) (t : Timestamp) (del : Bool)
      (r : KubernetesReader Num) (results : List (ResourceMetadata Num))
      → get_object (codes "spec") pod ≡ ok spec
      → get_array (codes "containers") spec ≡ ok specs
      → (get_pod_and_container_metadata w pod t del r).0 ≡ ok results
      → (length results ≡ length specs + 1) × All (Stamped t del) results
  get_pod_and_container_metadata-Stamped pod spec specs t del r results e c q =
      Returns-ok (λ xs. (length xs ≡ length specs + 1) × All (Stamped t del) xs)
        (get_pod_and_container_metadata w pod t del r) results
        (AllStamped-get_pod_and_container_metadata pod spec specs t del e c r) q

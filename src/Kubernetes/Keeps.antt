-- ===== src/Kubernetes/Keeps.antt =====
-- The results that MetadataQuery of src/kubernetes.cc gathers, step by step.
use metadata_agent.Prelude.{text_ord, false, List, ◌≡◌, refl, sym, subst, All, All-append}
use metadata_agent.Exceptions.{
  Result, ok, raise, json_exception, query_exception, non_retriable_error,
}
use metadata_agent.Updater.{ResourceMetadata}
use metadata_agent.Stateful.{continue_with, ◌>>=◌, lift, Returns}
use metadata_agent.Kubernetes.{World, KubernetesReader, Reader, or_json}
use metadata_agent.Kubernetes.Query.{Gathering, asked, emplace_back, skip_json}

-- A result that is to be reported, and does not stand for a deletion.
abbrev pub Live : {Num : Type 0} → ResourceMetadata Num → Type 0
Live x = (x.metadata.is_deleted ≡ false) × (x.metadata.ignore ≡ false)

pub state-or_json : {S A : Type 0} (a : A) (p : Result A × S) → (or_json a p).1 ≡ p.1
state-or_json a (ok b, s) = refl
state-or_json a (raise query_exception, s) = refl
state-or_json a (raise non_retriable_error, s) = refl
state-or_json a (raise (json_exception x), s) = refl
state-or_json a (raise e, s) = refl

pub state-skip_json : {S A : Type 0} (a : A) (p : Result A × S) → (skip_json a p).1 ≡ p.1
state-skip_json a (ok b, s) = refl
state-skip_json a (raise (json_exception x), s) = refl
state-skip_json a (raise e, s) = refl

module _ {Num : Type 0} (w : World Num) where
  -- A step adds none but live results.
  abbrev pub Keeps : {A : Type 0} → Gathering w A → Type 0
  Keeps step =
      (s : KubernetesReader Num × List (ResourceMetadata Num))
      → All Live s.1
      → All Live (step s).1.1

  pub Keeps-continue_with :
      {A B : Type 0} (f : A → Gathering w B)
      (p : Result A × (KubernetesReader Num × List (ResourceMetadata Num)))
      → All Live p.1.1
      → ((a : A) → Keeps (f a))
      → All Live (continue_with f p).1.1
  Keeps-continue_with f (ok a, s) h k = k a s h
  Keeps-continue_with f (raise e, s) h k = h

  pub Keeps-then :
      {A B : Type 0} (m : Gathering w A) (f : A → Gathering w B)
      → Keeps m
      → ((a : A) → Keeps (f a))
      → Keeps (m >>= f)
  Keeps-then m f h k s live = Keeps-continue_with f (m s) (h s live) k

  -- After a result that could be read, and after a step of the reader.
  pub Keeps-lift :
      {A B : Type 0} (r : Result A) (f : A → Gathering w B)
      → ((a : A) → Keeps (f a))
      → Keeps (lift r >>= f)
  Keeps-lift r f k s live = Keeps-continue_with f (r, s) live k

  pub Keeps-returned :
      {A B : Type 0} (P : A → Type 0) (f : A → Gathering w B) (p : Result A × KubernetesReader Num)
      (results : List (ResourceMetadata Num))
      → Returns (λ a r. P a) p
      → ((a : A) → P a → Keeps (f a))
      → All Live results
      → All Live (continue_with f (p.0, (p.1, results))).1.1
  Keeps-returned P f (ok a, r) results h k live = k a h (r, results) live
  Keeps-returned P f (raise e, r) results h k live = live

  pub Keeps-asked :
      {A B : Type 0} (P : A → Type 0) (step : Reader w A) (f : A → Gathering w B)
      → ((r : KubernetesReader Num) → Returns (λ a r'. P a) (step r))
      → ((a : A) → P a → Keeps (f a))
      → Keeps (asked w step >>= f)
  Keeps-asked P step f h k (r, results) live = Keeps-returned P f (step r) results (h r) k live

  pub Keeps-emplace_back :
      (new : List (ResourceMetadata Num)) → All Live new → Keeps (emplace_back w new)
  Keeps-emplace_back new h (r, results) live =
      All-append {A = ResourceMetadata Num} Live results new live h

  pub Returns-any : {A : Type 0} (p : Result A × KubernetesReader Num) → Returns (λ a s. Unit {0}) p
  Returns-any (ok a, r) = tt
  Returns-any (raise e, r) = tt

  -- A step whose exceptions are handled.
  pub Keeps-of_state :
      {A : Type 0} (m n : Gathering w A)
      → ((s : KubernetesReader Num × List (ResourceMetadata Num)) → (n s).1 ≡ (m s).1)
      → Keeps m
      → Keeps n
  Keeps-of_state m n e h s live = subst (λ s'. All Live s'.1) (sym (e s)) (h s live)

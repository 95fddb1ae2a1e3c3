-- ===== src/Kubernetes/Calm.antt =====
-- src/kubernetes.cc: what a watch makes of exceptions.
use metadata_agent.Prelude.{text_ord, ℕ, Bool, true, false, List, [], ◌∷◌, ◌≡◌, refl, arith, All}
use metadata_agent.Exceptions.{Result, ok, raise, json_exception}
use metadata_agent.Json.{Value, Object}
use metadata_agent.Json.Access.{as_object, get_string, get_object}
use metadata_agent.Store.{Timestamp}
use metadata_agent.Stateful.{Act, continue_with, lift}
use metadata_agent.Kubernetes.Query.{skip_json}
use metadata_agent.Kubernetes.Watch.{
  Notification, notified, events_of, watch_event_at, watch_event_callback,
}

-- It throws nothing but exceptions of JSON values.
abbrev pub is_calm : {A : Type 0} → Result A → Bool
is_calm (ok a) = true
is_calm (raise (json_exception x)) = true
is_calm (raise e) = false

is_calm-continue_with :
    {S A B : Type 0} (f : A → Act S B) (p : Result A × S)
    → is_calm p.0 ≡ true
    → ((a : A) (s : S) → is_calm (f a s).0 ≡ true)
    → is_calm (continue_with f p).0 ≡ true
is_calm-continue_with f (ok a, s) h k = k a s
is_calm-continue_with f (raise (json_exception x), s) h k = refl
is_calm-continue_with f (raise e, s) h k = absurd (ground arith)

is_calm-as_object : {Num : Type 0} (v : Value Num) → is_calm (as_object v) ≡ true
unfolding as_object
is_calm-as_object v = ground arith

is_calm-get_string : {Num : Type 0} (f : List ℕ) (m : Object Num) → is_calm (get_string f m) ≡ true
unfolding get_string
is_calm-get_string f m = ground arith

is_calm-get_object : {Num : Type 0} (f : List ℕ) (m : Object Num) → is_calm (get_object f m) ≡ true
unfolding get_object
is_calm-get_object f m = ground arith

ok_then :
    {S B : Type 0} {b : B} (f : Unit {0} → Act S B) (p : Result (Unit {0}) × S)
    → p.0 ≡ ok tt
    → ((s : S) → (f tt s).0 ≡ ok b)
    → (continue_with f p).0 ≡ ok b
ok_then f (ok u, s) h k = k s
ok_then f (raise e, s) h k = absurd (ground arith)

skip_json_of_calm :
    {S : Type 0} (p : Result (Unit {0}) × S) → is_calm p.0 ≡ true → (skip_json tt p).0 ≡ ok tt
skip_json_of_calm (ok u, s) h = refl
skip_json_of_calm (raise (json_exception x), s) h = refl
skip_json_of_calm (raise e, s) h = absurd (ground arith)

module _ {Num S : Type 0} (now : S → Timestamp)
    (callback : Object Num → Timestamp → Bool → Act S (Unit {0})) where
  abbrev pub IsCalmCallback : Type 0
  IsCalmCallback =
      (o : Object Num) (t : Timestamp) (d : Bool) (s : S) → is_calm (callback o t d s).0 ≡ true

  is_calm-watch_event_at :
      IsCalmCallback
      → (t : Timestamp) (v : Value Num) (s : S)
      → is_calm (watch_event_at now callback t v s).0 ≡ true
  unfolding watch_event_at
  is_calm-watch_event_at h t v s =
      is_calm-continue_with _ (lift (as_object v) s) (is_calm-as_object v) (λ watch s.
        is_calm-continue_with _ (lift (get_string _ watch) s) (is_calm-get_string _ watch)
          (λ type s.
            is_calm-continue_with _ (lift (get_object _ watch) s) (is_calm-get_object _ watch)
              (λ object s. ground (arith, h object t false s, h object t true s))))

  is_calm-events_of :
      IsCalmCallback
      → (vs : List (Value Num)) (parsed : Result (Unit {0})) (s : S) → is_calm parsed ≡ true
      → is_calm (events_of now callback vs parsed s).0 ≡ true
  unfolding events_of watch_event_callback
  is_calm-events_of h [] parsed s p = p
  is_calm-events_of h (v ∷ vs) parsed s p =
      is_calm-continue_with _ (watch_event_at now callback (now s) v s)
        (is_calm-watch_event_at h (now s) v s) (λ u s'. is_calm-events_of h vs parsed s' p)

  -- The parser too throws nothing but exceptions of JSON values.
  abbrev pub IsCalmNotification : Notification Num → Type 0
  IsCalmNotification n = is_calm n.parsed ≡ true

  pub notified-ok :
      IsCalmCallback
      → (ns : List (Notification Num)) (s : S) → All IsCalmNotification ns
      → (notified now callback ns s).0 ≡ ok tt
  unfolding notified
  notified-ok h [] s calm = refl
  notified-ok h (n ∷ ns) s calm =
      ok_then _ (skip_json tt (events_of now callback n.values n.parsed s))
        (skip_json_of_calm (events_of now callback n.values n.parsed s)
          (is_calm-events_of h n.values n.parsed s calm.0))
        (λ s'. notified-ok h ns s' calm.1)

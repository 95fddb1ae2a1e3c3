-- ===== src/Docker/Failures.antt =====
-- Which exceptions the queries of src/docker.cc throw, and which they handle.
use metadata_agent.Prelude.{
  text_ord, Text, Bool, true, false, Option, none, some, List, ◌≡◌, refl, if◌then◌else◌,
}
use metadata_agent.Exceptions.{
  Result, ok, raise, Exception, json_exception, query_exception, non_retriable_error,
}
use metadata_agent.Json.{Value, null, boolean, number, string, array, object}
use metadata_agent.Json.Access.{as_object, Outcome}
use metadata_agent.Updater.{ResourceMetadata}
use metadata_agent.Stateful.{continue_with}
use metadata_agent.Docker.{DockerReader, or_gone}
use metadata_agent.Docker.Queries.{caught}

-- The exceptions that MetadataQuery does not handle.
abbrev pub is_fatal : Exception → Bool
is_fatal (json_exception x) = false
is_fatal query_exception = false
is_fatal non_retriable_error = false
is_fatal e = true

-- It did not fail with a query's exception.
abbrev pub no_query : {A : Type 0} → Result A → Bool
no_query (ok a) = true
no_query (raise query_exception) = false
no_query (raise non_retriable_error) = false
no_query (raise e) = true

pub no_query-or_gone :
    {A : Type 0} (id : Text) (p : Result A × DockerReader) → no_query (or_gone id p).0 ≡ true
no_query-or_gone id (ok a, d) = refl
no_query-or_gone id (raise query_exception, d) = refl
no_query-or_gone id (raise non_retriable_error, d) = refl
no_query-or_gone id (raise (json_exception x), d) = refl
no_query-or_gone id (raise e, d) = refl

pub no_query-continue_with :
    {S A B : Type 0} (f : A → S → Result B × S) (r : Result A) (s : S)
    → no_query r ≡ true
    → ((a : A) (s' : S) → no_query (f a s').0 ≡ true)
    → no_query (continue_with f (r, s)).0 ≡ true
no_query-continue_with f (ok a) s h k = k a s
no_query-continue_with f (raise (json_exception x)) s h k = refl
no_query-continue_with f (raise query_exception) s h k = h
no_query-continue_with f (raise non_retriable_error) s h k = h
no_query-continue_with f (raise e) s h k = refl

pub no_query-Outcome :
    {Num : Type 0} (f : Text) (o : Option (Value Num)) → no_query (Outcome f o) ≡ true
no_query-Outcome f none = refl
no_query-Outcome f (some null) = refl
no_query-Outcome f (some (boolean b)) = refl
no_query-Outcome f (some (number n)) = refl
no_query-Outcome f (some (string s)) = refl
no_query-Outcome f (some (array xs)) = refl
no_query-Outcome f (some (object fs)) = refl

pub no_query-as_object : {Num : Type 0} (v : Value Num) → no_query (as_object v) ≡ true
unfolding as_object
no_query-as_object null = refl
no_query-as_object (boolean b) = refl
no_query-as_object (number n) = refl
no_query-as_object (string s) = refl
no_query-as_object (array xs) = refl
no_query-as_object (object fs) = refl

pub caught-raise :
    {Num : Type 0} (e : Exception) (rs : List (ResourceMetadata Num)) (last : DockerReader)
    → (caught ((raise e, rs), last)).0 ≡ (if is_fatal e then raise e else ok rs)
caught-raise (json_exception x) rs last = refl
caught-raise query_exception rs last = refl
caught-raise non_retriable_error rs last = refl
caught-raise e rs last = refl

pub caught-last :
    {Num : Type 0} (e : Exception) (rs : List (ResourceMetadata Num)) (last : DockerReader)
    → (caught ((raise e, rs), last)).1 ≡ last
caught-last (json_exception x) rs last = refl
caught-last query_exception rs last = refl
caught-last non_retriable_error rs last = refl
caught-last e rs last = refl

-- ===== src/Docker/Outcomes.antt =====
-- What the query for all containers of src/docker.cc returns.
use metadata_agent.Prelude.{
  text_ord, ℕ, Text, Bool, true, false, Option, List, [], ◌∷◌, codes, ◌≡◌, refl, sym, ◌∙◌, ap, ◌⊎◌,
  inl, inr, if◌then◌else◌, Bool-cases,
}
use metadata_agent.Prelude.Map.{find}
use metadata_agent.Exceptions.{
  Result, ok, raise, Exception, json_exception, query_exception, non_retriable_error, JsonError,
}
use metadata_agent.Json.{Value, Object}
use metadata_agent.Json.Access.{as_object, get_string, get_string-Outcome}
use metadata_agent.Store.{Timestamp}
use metadata_agent.Updater.{ResourceMetadata}
use metadata_agent.Environment.{Reply, Config}
use metadata_agent.Environment.Accessors.{instance_zone}
use metadata_agent.Docker.{DockerConfig, DockerReader, or_gone}
use metadata_agent.Docker.Queries.{
  Looped, prepend, continue_list, continue_listed, caught, inspect_container,
  get_container_metadata, container_metadata, container_list, listed, docker_query,
}
use metadata_agent.Docker.Failures.{
  is_fatal, no_query, no_query-or_gone, no_query-continue_with, no_query-Outcome,
  no_query-as_object, caught-raise, caught-last,
}

module _ {Num : Type 0} (config : Config) (server : ℕ → Text → Reply) (variable : Option Text)
    (file : Text → Option (Result (Option (Value Num)))) (docker_config : DockerConfig)
    (docker : ℕ → Text → Reply) (parse : Text → Result (Option (Value Num))) (clock : ℕ → Timestamp)
    (read_time : Text → Timestamp) (enable_docker_metadata : Bool) where
  abbrev inspected :
      Timestamp → Value Num → DockerReader → Result (ResourceMetadata Num) × DockerReader
  inspected =
      container_metadata config server variable file docker_config docker parse clock read_time
        enable_docker_metadata

  abbrev loop : Timestamp → List (Value Num) → DockerReader → Looped Num
  loop =
      container_list config server variable file docker_config docker parse clock read_time
        enable_docker_metadata

  -- The results are those of the containers in their order, each inspected after the one before; a
  -- container whose inspection throws a json::Exception has none, and costs no other.
  abbrev pub Inspected :
      Timestamp
      → List (Value Num)
      → DockerReader
      → List (ResourceMetadata Num)
      → DockerReader
      → Type 0
  Inspected collected_at [] d rs d' = (rs ≡ []) × (d' ≡ d)
  Inspected collected_at (c ∷ cs) d rs d'' =
      ((r : ResourceMetadata Num) × (d' : DockerReader) × (rest : List (ResourceMetadata Num))
        × (inspected collected_at c d ≡ (ok r, d'))
        × (rs ≡ r ∷ rest)
        × Inspected collected_at cs d' rest d'')
      ⊎ ((x : JsonError) × (d' : DockerReader) × (inspected collected_at c d
            ≡ (raise (json_exception x), d'))
          × Inspected collected_at cs d' rs d'')

  abbrev Loop : Timestamp → List (Value Num) → DockerReader → Looped Num → Type 0
  Loop collected_at cs d ((ok u, rs), d') = Inspected collected_at cs d rs d'
  Loop collected_at cs d ((raise e, rs), d') = is_fatal e ≡ true

  no_query-metadata :
      (collected_at : Timestamp) (m : Object Num) (d : DockerReader)
      → no_query
          (get_container_metadata config server variable file docker_config docker parse clock
            read_time enable_docker_metadata m collected_at d).0
        ≡ true
  unfolding get_container_metadata
  no_query-metadata collected_at m d =
      let asked = instance_zone config server variable file d.environment in
      let inspect : Text → DockerReader → Result (ResourceMetadata Num) × DockerReader = λ id.
        inspect_container config server variable file docker_config docker parse clock read_time
          enable_docker_metadata asked.0 id collected_at in
      no_query-continue_with (λ id d'. or_gone id (inspect id d')) (get_string (codes "Id") m)
        (record d { environment = asked.1 })
        (rw (get_string-Outcome (codes "Id") m)
          (no_query-Outcome (codes "Id") (find (codes "Id") m)))
        (λ id d'. no_query-or_gone id (inspect id d'))

  no_query-inspected :
      (collected_at : Timestamp) (c : Value Num) (d : DockerReader)
      → no_query (inspected collected_at c d).0 ≡ true
  unfolding container_metadata
  no_query-inspected collected_at c d =
      no_query-continue_with
        (λ m d'.
          get_container_metadata config server variable file docker_config docker parse clock
            read_time enable_docker_metadata m collected_at d')
        (as_object c) d (no_query-as_object c) (λ m d'. no_query-metadata collected_at m d')

  Loop-prepend :
      (collected_at : Timestamp) (c : Value Num) (cs : List (Value Num)) (d d' : DockerReader)
      (r : ResourceMetadata Num) (l : Looped Num)
      → inspected collected_at c d ≡ (ok r, d')
      → Loop collected_at cs d' l
      → Loop collected_at (c ∷ cs) d (prepend r l)
  Loop-prepend collected_at c cs d d' r ((ok u, rs), d'') q h = inl (r, d', rs, q, refl, h)
  Loop-prepend collected_at c cs d d' r ((raise e, rs), d'') q h = h

  Loop-skip :
      (collected_at : Timestamp) (c : Value Num) (cs : List (Value Num)) (d d' : DockerReader)
      (x : JsonError) (l : Looped Num)
      → inspected collected_at c d ≡ (raise (json_exception x), d')
      → Loop collected_at cs d' l
      → Loop collected_at (c ∷ cs) d l
  Loop-skip collected_at c cs d d' x ((ok u, rs), d'') q h = inr (x, d', q, h)
  Loop-skip collected_at c cs d d' x ((raise e, rs), d'') q h = h

  Loop-continue :
      (collected_at : Timestamp) (c : Value Num) (cs : List (Value Num)) (d : DockerReader)
      (p : Result (ResourceMetadata Num) × DockerReader)
      → inspected collected_at c d ≡ p
      → no_query p.0 ≡ true
      → ((d' : DockerReader) → Loop collected_at cs d' (loop collected_at cs d'))
      → Loop collected_at (c ∷ cs) d (continue_list p (loop collected_at cs))
  Loop-continue at c cs d (ok r, d') q h ih = Loop-prepend at c cs d d' r (loop at cs d') q (ih d')
  Loop-continue at c cs d (raise (json_exception x), d') q h ih =
      Loop-skip at c cs d d' x (loop at cs d') q (ih d')
  Loop-continue at c cs d (raise query_exception, d') q h ih = h
  Loop-continue at c cs d (raise non_retriable_error, d') q h ih = h
  Loop-continue at c cs d (raise e, d') q h ih = refl

  loop-Loop :
      (collected_at : Timestamp) (cs : List (Value Num)) (d : DockerReader)
      → Loop collected_at cs d (loop collected_at cs d)
  unfolding container_list
  loop-Loop at [] d = (refl, refl)
  loop-Loop at (c ∷ cs) d =
      Loop-continue at c cs d (inspected at c d) refl (no_query-inspected at c d) (loop-Loop at cs)

  abbrev list_of : DockerReader → Result (List (Value Num)) × DockerReader
  list_of =
      listed config server variable file docker_config docker parse clock read_time
        enable_docker_metadata

  -- How the query for all containers may end: without results if they could not be listed, with those
  -- of the containers in the list, or with an exception that is none of a query or of a JSON value.
  pub data QueryOutcome (d : DockerReader) (result : Result (List (ResourceMetadata Num)))
      (last : DockerReader) : Type 0 where
    unlisted :
        (e : Exception)
        → list_of d ≡ (raise e, last)
        → is_fatal e ≡ false
        → result ≡ ok []
        → QueryOutcome d result last
    complete :
        (cs : List (Value Num)) (d' : DockerReader) (rs : List (ResourceMetadata Num))
        → list_of d ≡ (ok cs, d')
        → Inspected (clock d'.requests) cs d' rs last
        → result ≡ ok rs
        → QueryOutcome d result last
    ended : (e : Exception) → is_fatal e ≡ true → result ≡ raise e → QueryOutcome d result last

  ended_of_fatal :
      (d : DockerReader) (e : Exception) (rs : List (ResourceMetadata Num)) (last : DockerReader)
      → is_fatal e ≡ true
      → QueryOutcome d (caught ((raise e, rs), last)).0 (caught ((raise e, rs), last)).1
  ended_of_fatal d e rs last h =
      ended e h (caught-raise e rs last ∙ ap (λ (b : Bool). if b then raise e else ok rs) h)

  unlisted_of_raise :
      (d : DockerReader) (e : Exception) (last : DockerReader)
      → list_of d ≡ (raise e, last)
      → QueryOutcome d
          (caught {Num = Num} ((raise e, []), last)).0
          (caught {Num = Num} ((raise e, []), last)).1
  unlisted_of_raise d e last q = elim (Bool-cases (is_fatal e)) [
    | inl f ↦ ended_of_fatal d e [] last f
    | inr f ↦
        unlisted e (q ∙ ap (λ (l : DockerReader). (raise e, l)) (sym (caught-last e [] last))) f
          (caught-raise e [] last ∙ ap (λ (b : Bool). if b then raise e else ok []) f)
  ]

  outcome_of_Loop :
      (d d' : DockerReader) (cs : List (Value Num)) (l : Looped Num)
      → list_of d ≡ (ok cs, d')
      → Loop (clock d'.requests) cs d' l
      → QueryOutcome d (caught l).0 (caught l).1
  outcome_of_Loop d d' cs ((ok u, rs), last) q h = complete cs d' rs q h refl
  outcome_of_Loop d d' cs ((raise e, rs), last) q h = ended_of_fatal d e rs last h

  outcome_of_list :
      (d : DockerReader) (p : Result (List (Value Num)) × DockerReader)
      → list_of d ≡ p
      → QueryOutcome d
          (caught (continue_listed (λ cs d'. loop (clock d'.requests) cs d') p)).0
          (caught (continue_listed (λ cs d'. loop (clock d'.requests) cs d') p)).1
  outcome_of_list d (ok cs, d') q =
      outcome_of_Loop d d' cs (loop (clock d'.requests) cs d') q
        (loop-Loop (clock d'.requests) cs d')
  outcome_of_list d (raise e, d') q = unlisted_of_raise d e d' q

  abbrev pub query_of : DockerReader → Result (List (ResourceMetadata Num)) × DockerReader
  query_of =
      docker_query config server variable file docker_config docker parse clock read_time
        enable_docker_metadata

  -- The query for all containers returns no results if they could not be listed, and else the results of
  -- the containers in the list, in their order, each inspected after the one before: a container whose
  -- inspection fails has no result and costs no other its own. No exception of a query or of a JSON
  -- value leaves it; another one does, and there are no results then.
  pub docker_query-QueryOutcome : (d : DockerReader) → QueryOutcome d (query_of d).0 (query_of d).1
  unfolding docker_query
  docker_query-QueryOutcome d = outcome_of_list d (list_of d) refl

-- ===== src/Environment/Cached.antt =====
-- src/environment.cc: an accessor asks until it has found something, and never again.
use metadata_agent.Prelude.{
  ℕ, Text, Bool, true, false, Option, List, [], ◌∷◌, if◌then◌else◌, is_empty, ◌≡◌, refl, ◌∙◌, ap,
  arith,
}
use metadata_agent.Exceptions.{Result}
use metadata_agent.Json.{Value}
use metadata_agent.Environment.{
  Reply, Config, Environment, get_metadata_string, read_application_default_credentials,
  credentials_client_email, credentials_private_key, read_credentials, store_parsed,
  store_credentials, store_project,
}
use metadata_agent.Environment.Accessors.{
  Accessor, of_project_id, of_zone, of_instance_id, of_resource_type, of_cluster_name,
  of_cluster_location, of_client_email, of_private_key, ask, project_id, find_project,
  query_project, instance_zone, instance_id, instance_resource_type, kubernetes_cluster_name,
  query_kube_env, query_cluster_location, kubernetes_cluster_location,
}

-- The field that the accessor returns.
abbrev pub value : Accessor → Environment → Text
value of_project_id e = e.project_id
value of_zone e = e.zone
value of_instance_id e = e.instance_id
value of_resource_type e = e.instance_resource_type
value of_cluster_name e = e.kubernetes_cluster_name
value of_cluster_location e = e.kubernetes_cluster_location
value of_client_email e = e.client_email
value of_private_key e = e.private_key

-- The accessor has nothing more to find.
abbrev pub settled : Accessor → Environment → Bool
settled of_client_email e = e.application_default_credentials_read
settled of_private_key e = e.application_default_credentials_read
settled a e = if is_empty (value a e) then false else true

module _ {Num : Type 0} (config : Config) (server : ℕ → Text → Reply) (variable : Option Text)
    (file : Text → Option (Result (Option (Value Num)))) where
  -- A settled accessor answers from its field and changes nothing.
  ask-settled :
      (a : Accessor) (e : Environment)
      → settled a e ≡ true
      → ask config server variable file a e ≡ (value a e, e)
  unfolding ask project_id instance_zone instance_id instance_resource_type kubernetes_cluster_name
      kubernetes_cluster_location credentials_client_email credentials_private_key
      read_application_default_credentials
  ask-settled of_project_id e h = ground arith
  ask-settled of_zone e h = ground arith
  ask-settled of_instance_id e h = ground arith
  ask-settled of_resource_type e h = ground arith
  ask-settled of_cluster_name e h = ground arith
  ask-settled of_cluster_location e h = ground arith
  ask-settled of_client_email e h = ground arith
  ask-settled of_private_key e h = ground arith

  -- What an accessor returned is in its field, and it is settled if that is not empty.
  ask-value :
      (a : Accessor) (e : Environment)
      → (value a (ask config server variable file a e).1 ≡ (ask config server variable file a e).0)
  unfolding ask project_id instance_zone instance_id instance_resource_type kubernetes_cluster_name
      kubernetes_cluster_location credentials_client_email credentials_private_key
  ask-value of_project_id e = refl
  ask-value of_zone e = refl
  ask-value of_instance_id e = refl
  ask-value of_resource_type e = refl
  ask-value of_cluster_name e = refl
  ask-value of_cluster_location e = refl
  ask-value of_client_email e = refl
  ask-value of_private_key e = refl

  -- What the settled accessors of the first state return is the same in the second.
  abbrev Keeps : Environment → Environment → Type 0
  Keeps e e' =
      (is_empty e.project_id ≡ false → e'.project_id ≡ e.project_id)
      × (is_empty e.zone ≡ false → e'.zone ≡ e.zone)
      × (is_empty e.instance_id ≡ false → e'.instance_id ≡ e.instance_id)
      × (is_empty e.instance_resource_type ≡ false
          → e'.instance_resource_type ≡ e.instance_resource_type)
      × (is_empty e.kubernetes_cluster_name ≡ false
          → e'.kubernetes_cluster_name ≡ e.kubernetes_cluster_name)
      × (is_empty e.kubernetes_cluster_location ≡ false
          → e'.kubernetes_cluster_location ≡ e.kubernetes_cluster_location)
      × (e.application_default_credentials_read ≡ true
          → e'.application_default_credentials_read ≡ true)
      × (e.application_default_credentials_read ≡ true → e'.client_email ≡ e.client_email)
      × (e.application_default_credentials_read ≡ true → e'.private_key ≡ e.private_key)

  Keeps-value :
      (a : Accessor) (e e' : Environment)
      → Keeps e e'
      → settled a e ≡ true
      → (settled a e' ≡ true) × (value a e' ≡ value a e)
  Keeps-value of_project_id e e' k h = ground (arith, k)
  Keeps-value of_zone e e' k h = ground (arith, k)
  Keeps-value of_instance_id e e' k h = ground (arith, k)
  Keeps-value of_resource_type e e' k h = ground (arith, k)
  Keeps-value of_cluster_name e e' k h = ground (arith, k)
  Keeps-value of_cluster_location e e' k h = ground (arith, k)
  Keeps-value of_client_email e e' k h = ground (arith, k)
  Keeps-value of_private_key e e' k h = ground (arith, k)

  -- The credentials' fields are not those of the other accessors.
  abbrev Same6 : Environment → Environment → Type 0
  Same6 e e' =
      (e'.project_id ≡ e.project_id)
      × (e'.zone ≡ e.zone)
      × (e'.instance_id ≡ e.instance_id)
      × (e'.instance_resource_type ≡ e.instance_resource_type)
      × (e'.kubernetes_cluster_name ≡ e.kubernetes_cluster_name)
      × (e'.kubernetes_cluster_location ≡ e.kubernetes_cluster_location)

  store_parsed-Same6 :
      (parsed : Result (Value Num)) (e : Environment)
      → Same6 e (store_parsed config server variable file parsed e)
  unfolding store_parsed store_credentials store_project
  store_parsed-Same6 parsed e = ground arith

  Keeps-read :
      (e : Environment)
      → Keeps e (read_application_default_credentials config server variable file e)
        × Same6 e (read_application_default_credentials config server variable file e)
  unfolding read_application_default_credentials read_credentials
  Keeps-read e = ground (arith, λ (parsed : Result (Value Num)). store_parsed-Same6 parsed e)

  Keeps-ask : (b : Accessor) (e : Environment) → Keeps e (ask config server variable file b e).1
  unfolding ask project_id find_project query_project instance_zone instance_id
      instance_resource_type kubernetes_cluster_name kubernetes_cluster_location
      query_cluster_location query_kube_env credentials_client_email credentials_private_key
      get_metadata_string
  Keeps-ask of_project_id e = ground (arith, Keeps-read e)
  Keeps-ask of_zone e = ground arith
  Keeps-ask of_instance_id e = ground arith
  Keeps-ask of_resource_type e = ground arith
  Keeps-ask of_cluster_name e = ground arith
  Keeps-ask of_cluster_location e = ground arith
  Keeps-ask of_client_email e = ground (arith, Keeps-read e)
  Keeps-ask of_private_key e = ground (arith, Keeps-read e)

  -- The state after a sequence of accesses, in the order in which the threads take the lock.
  abbrev pub ask_all : List Accessor → Environment → Environment
  ask_all [] e = e
  ask_all (b ∷ bs) e = ask_all bs (ask config server variable file b e).1

  ask-settles :
      (a : Accessor) (e : Environment)
      → is_empty (ask config server variable file a e).0 ≡ false
      → settled a (ask config server variable file a e).1 ≡ true
  unfolding ask credentials_client_email credentials_private_key
      read_application_default_credentials
  ask-settles of_project_id e h = ground (arith, ask-value of_project_id e)
  ask-settles of_zone e h = ground (arith, ask-value of_zone e)
  ask-settles of_instance_id e h = ground (arith, ask-value of_instance_id e)
  ask-settles of_resource_type e h = ground (arith, ask-value of_resource_type e)
  ask-settles of_cluster_name e h = ground (arith, ask-value of_cluster_name e)
  ask-settles of_cluster_location e h = ground (arith, ask-value of_cluster_location e)
  ask-settles of_client_email e h = ground arith
  ask-settles of_private_key e h = ground arith

  ask_all-value :
      (a : Accessor) (bs : List Accessor) (e : Environment)
      → settled a e ≡ true
      → (settled a (ask_all bs e) ≡ true) × (value a (ask_all bs e) ≡ value a e)
  ask_all-value a [] e h = (h, refl)
  ask_all-value a (b ∷ bs) e h =
      let e' = (ask config server variable file b e).1 in
      let (s, v) = Keeps-value a e e' (Keeps-ask b e) h in
      let (s', v') = ask_all-value a bs e' s in (s', v' ∙ v)

  -- An accessor that has returned a text other than the empty one returns the same ever after, whatever
  -- the threads ask in between and the metadata server replies, and then changes nothing, so that it
  -- makes no further request.
  pub ask-ask_all :
      (a : Accessor) (bs : List Accessor) (e : Environment)
      → is_empty (ask config server variable file a e).0 ≡ false
      → ask config server variable file a (ask_all bs (ask config server variable file a e).1) ≡ (
        (ask config server variable file a e).0,
        ask_all bs (ask config server variable file a e).1,
      )
  ask-ask_all a bs e h =
      let e' = (ask config server variable file a e).1 in
      let (s, v) = ask_all-value a bs e' (ask-settles a e h) in
      ask-settled a (ask_all bs e') s ∙ ap (λ t. (t, ask_all bs e')) (v ∙ ask-value a e)

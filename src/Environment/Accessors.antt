-- ===== src/Environment/Accessors.antt =====
-- src/environment.cc: the accessors, each of which keeps what it found in its field.
use metadata_agent.Prelude.{ℕ, Text, Option, none, some, codes, if◌then◌else◌, is_empty, []}
use metadata_agent.Exceptions.{Result}
use metadata_agent.Json.{Value}
use metadata_agent.Environment.{
  Reply, Config, Environment, after_last, lines_from, project_of_email, zone_line,
  gce_instance_resource_type, get_metadata_string, read_application_default_credentials,
  credentials_client_email, credentials_private_key,
}

-- The accessors.
pub data Accessor : Type 0 where
  of_project_id of_zone of_instance_id of_resource_type of_cluster_name of_cluster_location
        of_client_email of_private_key :
      Accessor

module _ {Num : Type 0} (config : Config) (server : ℕ → Text → Reply) (variable : Option Text)
    (file : Text → Option (Result (Option (Value Num)))) where
  -- The project from the credentials: their own, or the one in the account's address.
  unfoldable pub project_of_credentials : Environment → Text
  unfolding project_of_email
  project_of_credentials e =
      if is_empty e.credentials_project_id
      then if is_empty e.client_email
        then e.project_id
        else elim (project_of_email e.client_email) [ none ↦ e.project_id | some project ↦ project ]
      else e.credentials_project_id

  -- The metadata server is asked if the field is still empty.
  unfoldable pub query_project : Environment → Environment
  unfolding get_metadata_string
  query_project e =
      let asked = get_metadata_string config server variable file (codes "project/project-id") e in
      if is_empty e.project_id then record asked.1 { project_id = asked.0 } else e

  -- The project of the credentials, and else of the metadata server.
  unfoldable pub find_project : Environment → Environment
  unfolding project_of_credentials query_project read_application_default_credentials
  find_project e =
      let read = read_application_default_credentials config server variable file e in
      query_project (record read { project_id = project_of_credentials read })

  -- ProjectId.
  unfoldable pub project_id : Environment → Text × Environment
  unfolding find_project
  project_id e =
      let found = find_project e in
      let e' =
        if is_empty e.project_id
        then if is_empty config.project_id
          then found
          else record e { project_id = config.project_id }
        else e in
      (e'.project_id, e')

  -- InstanceZone.
  unfoldable pub instance_zone : Environment → Text × Environment
  unfolding get_metadata_string after_last
  instance_zone e =
      let asked = get_metadata_string config server variable file (codes "instance/zone") e in
      let e' =
        if is_empty e.zone
        then if is_empty config.instance_zone
          then record asked.1 { zone = after_last 47 asked.0 }
          else record e { zone = config.instance_zone }
        else e in
      (e'.zone, e')

  -- InstanceId.
  unfoldable pub instance_id : Environment → Text × Environment
  unfolding get_metadata_string
  instance_id e =
      let asked = get_metadata_string config server variable file (codes "instance/id") e in
      let e' =
        if is_empty e.instance_id
        then if is_empty config.instance_id
          then record asked.1 { instance_id = asked.0 }
          else record e { instance_id = config.instance_id }
        else e in
      (e'.instance_id, e')

  -- InstanceResourceType.
  unfoldable pub instance_resource_type : Environment → Text × Environment
  instance_resource_type e =
      let e' =
        if is_empty e.instance_resource_type
        then if is_empty config.instance_resource_type
          then record e { instance_resource_type = gce_instance_resource_type }
          else record e { instance_resource_type = config.instance_resource_type }
        else e in
      (e'.instance_resource_type, e')

  -- KubernetesClusterName.
  unfoldable pub kubernetes_cluster_name : Environment → Text × Environment
  unfolding get_metadata_string
  kubernetes_cluster_name e =
      let asked =
        get_metadata_string config server variable file (codes "instance/attributes/cluster-name")
          e in
      let e' =
        if is_empty e.kubernetes_cluster_name
        then if is_empty config.kubernetes_cluster_name
          then record asked.1 { kubernetes_cluster_name = asked.0 }
          else record e { kubernetes_cluster_name = config.kubernetes_cluster_name }
        else e in
      (e'.kubernetes_cluster_name, e')

  -- The fallback on kube-env, where the field is still empty; it stays so if no line has the location.
  unfoldable pub query_kube_env : Environment → Environment
  unfolding get_metadata_string zone_line lines_from
  query_kube_env e =
      let asked =
        get_metadata_string config server variable file (codes "instance/attributes/kube-env") e in
      if is_empty e.kubernetes_cluster_location
      then record asked.1 { kubernetes_cluster_location = zone_line (lines_from [] asked.0) }
      else e

  unfoldable pub query_cluster_location : Environment → Environment
  unfolding get_metadata_string query_kube_env
  query_cluster_location e =
      let asked =
        get_metadata_string config server variable file
          (codes "instance/attributes/cluster-location") e in
      query_kube_env (record asked.1 { kubernetes_cluster_location = asked.0 })

  -- KubernetesClusterLocation.
  unfoldable pub kubernetes_cluster_location : Environment → Text × Environment
  unfolding query_cluster_location
  kubernetes_cluster_location e =
      let queried = query_cluster_location e in
      let e' =
        if is_empty e.kubernetes_cluster_location
        then if is_empty config.kubernetes_cluster_location
          then queried
          else record e { kubernetes_cluster_location = config.kubernetes_cluster_location }
        else e in
      (e'.kubernetes_cluster_location, e')

  unfoldable pub ask : Accessor → Environment → Text × Environment
  unfolding project_id instance_zone instance_id instance_resource_type kubernetes_cluster_name
      kubernetes_cluster_location credentials_client_email credentials_private_key
  ask of_project_id = project_id
  ask of_zone = instance_zone
  ask of_instance_id = instance_id
  ask of_resource_type = instance_resource_type
  ask of_cluster_name = kubernetes_cluster_name
  ask of_cluster_location = kubernetes_cluster_location
  ask of_client_email = credentials_client_email config server variable file
  ask of_private_key = credentials_private_key config server variable file

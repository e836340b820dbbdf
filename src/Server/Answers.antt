-- ===== src/Server/Answers.antt =====
-- internal/server/api: the handlers that answer from one cache or from one cluster (clusters,
-- dependency, workload and trafficconfig). A parameter of a path that is missing reads as the empty
-- text.
use naavik.Common.{String, List, [], ◌∷◌, Option, none, some}
use naavik.Common.Table.{Table}
use naavik.Common.Text.{join}
use naavik.Common.Types.{namespace_istio_system, created_by_key, created_for_key, naavik_name}
use naavik.Options.{NaavikArgs}
use naavik.Cache.Clusters
use naavik.Cache.Clusters.{RemoteCluster}
use naavik.Cache.Deployments
use naavik.Cache.Rollouts
use naavik.Cache.Services
use naavik.Cache.Identities
use naavik.Cache.Dependencies
use naavik.Cache.TrafficConfigs
use naavik.Handlers.{Caches}
use naavik.Server.{
  Resource, Body, Response, Answer, Istio, filter_list, service_list, error_response, resource,
  clusters, names, total, traffic_config_entry, traffic_config, workload, cluster_workload,
  workload_items, services, listed, failed, status_ok, status_not_found,
  status_internal_server_error,
}

-- The selector of the two listings for an identity, which is taken as it is given
abbrev pub identity_selector : String → Table String
identity_selector identity = (created_for_key, identity) ∷ []

module _ {Clients FilterList ServiceList : Type 0} (istio : Istio FilterList ServiceList)
    (params : NaavikArgs) (caches : Caches) (registered : Clusters.Cache Clients) where
  abbrev pub ok : Body FilterList ServiceList → Response FilterList ServiceList
  ok body = record { status = status_ok; body = body }

  abbrev names_and_hosts : List (RemoteCluster Clients) → List (String × String)
  names_and_hosts [] = []
  names_and_hosts (rc ∷ rcs) = (Clusters.get_cluster_id rc, rc.host) ∷ names_and_hosts rcs

  unfoldable pub get_remote_clusters : Response FilterList ServiceList
  get_remote_clusters = ok (clusters (names_and_hosts (Clusters.list_clusters registered)))

  unfoldable pub get_clusters_for_identity : String → Response FilterList ServiceList
  get_clusters_for_identity identity =
      ok (names (Identities.get_clusters_for_identity caches.identities identity))

  -- The answer for a cluster that is cached, or not, and its listing.
  abbrev pub listing :
      {A : Type 0}
      → String
      → (A → Resource FilterList ServiceList)
      → Option (RemoteCluster Clients)
      → (RemoteCluster Clients → Answer A)
      → Response FilterList ServiceList
  listing cluster_id found none list = record {
    status = status_not_found;
    body = resource (error_response (join ("Cluster " ∷ cluster_id ∷ " not found" ∷ []) ""));
  }
  listing cluster_id found (some rc) list = elim (list rc) [
    | listed l ↦ ok (resource (found l))
    | failed message ↦ record {
      status = status_internal_server_error;
      body = resource (error_response message);
    }
  ]

  unfoldable pub get_envoy_filters_for_cluster : String → Response FilterList ServiceList
  get_envoy_filters_for_cluster cluster_id =
      listing cluster_id filter_list (Clusters.get_cluster registered cluster_id) (λ rc.
        istio.list_envoy_filters (Clusters.get_cluster_id rc) namespace_istio_system
          ((created_by_key, naavik_name) ∷ []))

  unfoldable pub get_virtual_services_for_cluster : String → Response FilterList ServiceList
  get_virtual_services_for_cluster cluster_id =
      listing cluster_id service_list (Clusters.get_cluster registered cluster_id)
        (λ rc. istio.list_virtual_services (Clusters.get_cluster_id rc) params.sync_namespace [])

  unfoldable pub get_envoy_filters_for_cluster_and_identity :
      String → String → Response FilterList ServiceList
  get_envoy_filters_for_cluster_and_identity cluster_id identity =
      listing cluster_id filter_list (Clusters.get_cluster registered cluster_id) (λ rc.
        istio.list_envoy_filters (Clusters.get_cluster_id rc) namespace_istio_system
          (identity_selector identity))

  unfoldable pub get_virtual_services_for_cluster_and_identity :
      String → String → Response FilterList ServiceList
  get_virtual_services_for_cluster_and_identity cluster_id identity =
      listing cluster_id service_list (Clusters.get_cluster registered cluster_id) (λ rc.
        istio.list_virtual_services (Clusters.get_cluster_id rc) params.sync_namespace
          (identity_selector identity))

  unfoldable pub get_dependencies_for_identity : String → Response FilterList ServiceList
  get_dependencies_for_identity identity =
      ok (names (Dependencies.get_dependencies_for_identity caches.dependencies identity))

  unfoldable pub get_dependents_for_identity : String → Response FilterList ServiceList
  get_dependents_for_identity identity =
      ok (names (Dependencies.get_dependents_for_identity caches.dependencies identity))

  unfoldable pub get_total_dependencies : Response FilterList ServiceList
  get_total_dependencies = ok (total (Dependencies.get_total_dependencies caches.dependencies))

  unfoldable pub get_workloads_by_identity : String → Response FilterList ServiceList
  get_workloads_by_identity identity = ok (
      workload_items identity (Deployments.get_by_identity caches.deployments identity)
        (Rollouts.get_by_identity caches.rollouts identity))

  unfoldable pub get_workloads_by_cluster_identity :
      String → String → Response FilterList ServiceList
  get_workloads_by_cluster_identity cluster identity = ok (
      cluster_workload cluster
        (Deployments.get_by_cluster_identity caches.deployments cluster identity)
        (Rollouts.get_by_cluster_identity caches.rollouts cluster identity))

  unfoldable pub get_by_cluster_identity_env :
      String → String → String → Response FilterList ServiceList
  get_by_cluster_identity_env cluster identity env = ok (
      workload identity
        (Deployments.get_by_cluster_identity_env caches.deployments cluster identity env)
        (Rollouts.get_by_cluster_identity_env caches.rollouts cluster identity env))

  unfoldable pub get_services_by_cluster_namespace :
      String → String → Response FilterList ServiceList
  get_services_by_cluster_namespace cluster namespace =
      ok (services (Services.get_by_cluster_namespace caches.services cluster namespace))

  unfoldable pub get_by_identity : String → Response FilterList ServiceList
  get_by_identity identity = ok (
      traffic_config_entry
        (TrafficConfigs.get_traffic_config_entry caches.traffic_configs identity))

  unfoldable pub get_by_identity_env : String → String → Response FilterList ServiceList
  get_by_identity_env identity env =
      ok (traffic_config (TrafficConfigs.get caches.traffic_configs identity env))

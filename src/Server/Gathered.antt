-- ===== src/Server/Gathered.antt =====
-- internal/server/api/trafficconfig: the filters and virtual services that belong to an identity, in
-- its clusters and in those of its dependents (traffic_config_handler.go, traffic_config_dto.go).
use naavik.Common.{String, List, [], ◌∷◌, ◌++◌, Option, none, some, ◌==◌, if◌then◌else◌}
use naavik.Common.Table
use naavik.Common.Table.{Table}
use naavik.Common.Text.{to_lower, join}
use naavik.Common.Types.{
  namespace_istio_system, created_by_key, created_for_key, created_for_env_key, naavik_name,
}
use naavik.Options.{NaavikArgs}
use naavik.Cache.Clusters
use naavik.Cache.Clusters.{RemoteCluster}
use naavik.Cache.Identities
use naavik.Cache.Dependencies
use naavik.Handlers.{Caches}
use naavik.Server.{
  Resource, Response, Answer, Istio, filter_list, service_list, error_response, resources, listed,
  failed, status_ok,
}

-- The label selector of both updates
unfoldable pub resource_selector : String → String → Table String
resource_selector identity env =
    (created_by_key, naavik_name)
    ∷ (created_for_key, to_lower identity)
    ∷ (if env == "" then [] else (created_for_env_key, env) ∷ [])

-- `ClusterResources`: by cluster, and by the name of the resource.
abbrev pub Resources : Type 0 → Type 0 → Type 0
Resources FilterList ServiceList = Table (Table (Resource FilterList ServiceList))

module _ {FilterList ServiceList : Type 0} where
  abbrev pub or_new :
      Option (Table (Resource FilterList ServiceList)) → Table (Resource FilterList ServiceList)
  or_new none = []
  or_new (some named) = named

  -- A write for a cluster: an error is written only where the cluster has a map; `none` is the panic
  -- of the write to a nil map.
  abbrev pub put_error :
      Resources FilterList ServiceList
      → String
      → String
      → String
      → Option (Table (Resource FilterList ServiceList))
      → Option (Resources FilterList ServiceList)
  put_error m cluster_id key message none = none
  put_error m cluster_id key message (some named) =
      some (Table.set m cluster_id (Table.set named key (error_response message)))

  unfoldable pub put :
      {A : Type 0}
      → (A → Resource FilterList ServiceList)
      → Resources FilterList ServiceList
      → String
      → String
      → Answer A
      → Option (Resources FilterList ServiceList)
  put found m cluster_id key (listed l) =
      some (Table.set m cluster_id (Table.set (or_new (Table.get m cluster_id)) key (found l)))
  put found m cluster_id key (failed message) =
      put_error m cluster_id key message (Table.get m cluster_id)

abbrev pub throttle_filters_of : String → String
throttle_filters_of identity = join (identity ∷ "throttlefilters" ∷ []) "/"

abbrev pub virtual_services_of : String → String
virtual_services_of identity = join (identity ∷ "virtualservices" ∷ []) "/"

module _ {Clients FilterList ServiceList : Type 0} (istio : Istio FilterList ServiceList)
    (params : NaavikArgs) (caches : Caches) (registered : Clusters.Cache Clients) where
  unfoldable pub update_throttle_envoy_filters :
      Resources FilterList ServiceList
      → RemoteCluster Clients
      → String
      → String
      → Option (Resources FilterList ServiceList)
  unfolding put
  update_throttle_envoy_filters m rc identity env =
      put filter_list m (Clusters.get_cluster_id rc) (throttle_filters_of identity) (
        istio.list_envoy_filters (Clusters.get_cluster_id rc) namespace_istio_system
          (resource_selector identity env))

  unfoldable pub update_virtual_services :
      Resources FilterList ServiceList
      → RemoteCluster Clients
      → String
      → String
      → Option (Resources FilterList ServiceList)
  unfolding put
  update_virtual_services m rc identity env =
      put service_list m (Clusters.get_cluster_id rc) (virtual_services_of identity) (
        istio.list_virtual_services (Clusters.get_cluster_id rc) params.sync_namespace
          (resource_selector identity env))

  -- One turn of a loop over clusters: those that are not cached are passed over.
  abbrev pub update_if :
      (Resources FilterList ServiceList
        → RemoteCluster Clients
        → Option (Resources FilterList ServiceList))
      → Option (RemoteCluster Clients)
      → Option (Resources FilterList ServiceList)
      → Option (Resources FilterList ServiceList)
  update_if update rc none = none
  update_if update none (some m) = some m
  update_if update (some rc) (some m) = update m rc

  unfoldable pub update_all :
      (Resources FilterList ServiceList
        → RemoteCluster Clients
        → Option (Resources FilterList ServiceList))
      → List String
      → Option (Resources FilterList ServiceList)
      → Option (Resources FilterList ServiceList)
  update_all update [] m = m
  update_all update (cluster ∷ clusters) m =
      update_all update clusters (update_if update (Clusters.get_cluster registered cluster) m)

  unfoldable pub clusters_of_all : List String → List String
  clusters_of_all [] = []
  clusters_of_all (dependent ∷ dependents) =
      Identities.get_clusters_for_identity caches.identities dependent ++ clusters_of_all dependents

  -- The filters in the clusters of the identity, and then the virtual services in others.
  abbrev pub gathered : String → String → List String → Option (Resources FilterList ServiceList)
  gathered identity env clusters =
      update_all (λ m rc. update_virtual_services m rc identity env) clusters
        (update_all (λ m rc. update_throttle_envoy_filters m rc identity env)
          (Identities.get_clusters_for_identity caches.identities identity) (some []))

  abbrev responded :
      Option (Resources FilterList ServiceList) → Option (Response FilterList ServiceList)
  responded none = none
  responded (some m) = some (record { status = status_ok; body = resources m })

  unfoldable pub get_resources_related_to_identity :
      String → Option (Response FilterList ServiceList)
  unfolding update_all clusters_of_all update_throttle_envoy_filters update_virtual_services
  get_resources_related_to_identity identity = responded (
      gathered identity ""
        (clusters_of_all (Dependencies.get_dependents_for_identity caches.dependencies identity)))

  -- No route leads to this handler.
  unfoldable pub get_resources_related_to_identity_and_dependent :
      String → String → Option (Response FilterList ServiceList)
  unfolding update_all update_throttle_envoy_filters update_virtual_services
  get_resources_related_to_identity_and_dependent identity dependent =
      responded
        (gathered identity "" (Identities.get_clusters_for_identity caches.identities dependent))

  unfoldable pub get_resources_related_to_identity_and_dependent_and_env :
      String → String → String → Option (Response FilterList ServiceList)
  unfolding update_all update_throttle_envoy_filters update_virtual_services
  get_resources_related_to_identity_and_dependent_and_env identity dependent env =
      responded
        (gathered identity env (Identities.get_clusters_for_identity caches.identities dependent))

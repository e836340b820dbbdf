-- ===== src/Server/Routes.antt =====
-- The routes of internal/server/router.go and of the `AddRoutes` functions of internal/server/api,
-- with the handlers that they lead to. The matching of a request with a pattern is gin's.
use naavik.Common.{String, [], ◌∷◌, Option, none, some, ◌==◌, if◌then◌else◌}
use naavik.Common.Table.{Table}
use naavik.Meta.{at}
use naavik.Options.{NaavikArgs}
use naavik.Cache.Clusters
use naavik.Handlers.{Caches}
use naavik.Server.{Response, Istio, health_check, health_check_path}
use naavik.Server.Answers.{
  get_remote_clusters, get_clusters_for_identity, get_envoy_filters_for_cluster,
  get_virtual_services_for_cluster, get_envoy_filters_for_cluster_and_identity,
  get_virtual_services_for_cluster_and_identity, get_dependencies_for_identity,
  get_dependents_for_identity, get_total_dependencies, get_workloads_by_identity,
  get_workloads_by_cluster_identity, get_by_cluster_identity_env, get_services_by_cluster_namespace,
  get_by_identity, get_by_identity_env,
}
use naavik.Server.Gathered.{
  get_resources_related_to_identity, get_resources_related_to_identity_and_dependent_and_env,
}

module _ {Clients FilterList ServiceList : Type 0} (istio : Istio FilterList ServiceList)
    (params : NaavikArgs) (caches : Caches) (registered : Clusters.Cache Clients) where
  -- A handler, from the parameters of a path; `none` is a panic, which gin answers for.
  abbrev pub Handler : Type 0
  Handler = Table String → Option (Response FilterList ServiceList)

  abbrev workload_routes : Table Handler
  workload_routes =
      (
        "/api/v1/workload/clusters/:cluster/identities/:identity/env/:env",
        λ p. some (
            get_by_cluster_identity_env istio params caches registered (at p "cluster")
              (at p "identity") (at p "env")),
      )
      ∷ (
        "/api/v1/workload/clusters/:cluster/identities/:identity",
        λ p. some (
            get_workloads_by_cluster_identity istio params caches registered (at p "cluster")
              (at p "identity")),
      )
      ∷ (
        "/api/v1/workload/clusters/identities/:identity",
        λ p. some (get_workloads_by_identity istio params caches registered (at p "identity")),
      )
      ∷ (
        "/api/v1/workload/clusters/:cluster/namespaces/:namespace/services",
        λ p. some (
            get_services_by_cluster_namespace istio params caches registered (at p "cluster")
              (at p "namespace")),
      )
      ∷ []

  abbrev cluster_routes : Table Handler
  cluster_routes =
      ("/api/v1/clusters/", λ p. some (get_remote_clusters istio params caches registered))
      ∷ (
        "/api/v1/clusters/identities/:identity",
        λ p. some (get_clusters_for_identity istio params caches registered (at p "identity")),
      )
      ∷ (
        "/api/v1/clusters/:clusterId/envoyfilters/identities/:identity",
        λ p. some (
            get_envoy_filters_for_cluster_and_identity istio params caches registered
              (at p "clusterId") (at p "identity")),
      )
      ∷ (
        "/api/v1/clusters/:clusterId/envoyfilters",
        λ p. some (get_envoy_filters_for_cluster istio params caches registered (at p "clusterId")),
      )
      ∷ (
        "/api/v1/clusters/:clusterId/virtualservices/identities/:identity",
        λ p. some (
            get_virtual_services_for_cluster_and_identity istio params caches registered
              (at p "clusterId") (at p "identity")),
      )
      ∷ (
        "/api/v1/clusters/:clusterId/virtualservices",
        λ p.
            some
              (get_virtual_services_for_cluster istio params caches registered (at p "clusterId")),
      )
      ∷ []

  abbrev dependency_routes : Table Handler
  dependency_routes =
      (
        "/api/v1/dependency/identities/:identity",
        λ p. some (get_dependencies_for_identity istio params caches registered (at p "identity")),
      )
      ∷ (
        "/api/v1/dependency/total",
        λ p. some (get_total_dependencies istio params caches registered),
      )
      ∷ (
        "/api/v1/dependents/identities/:identity",
        λ p. some (get_dependents_for_identity istio params caches registered (at p "identity")),
      )
      ∷ []

  abbrev traffic_config_routes : Table Handler
  traffic_config_routes =
      (
        "/api/v1/trafficonfig/resources/identities/:identity",
        λ p. get_resources_related_to_identity istio params caches registered (at p "identity"),
      )
      ∷ (
        "/api/v1/trafficonfig/resources/identities/:identity/dependents/:dependent",
        λ p. get_resources_related_to_identity istio params caches registered (at p "identity"),
      )
      ∷ (
        "/api/v1/trafficonfig/resources/identities/:identity/dependents/:dependent/env/:env",
        λ p.
            get_resources_related_to_identity_and_dependent_and_env istio params caches registered
              (at p "identity") (at p "dependent") (at p "env"),
      )
      ∷ (
        "/api/v1/trafficonfig/identities/:identity",
        λ p. some (get_by_identity istio params caches registered (at p "identity")),
      )
      ∷ (
        "/api/v1/trafficonfig/identities/:identity/env/:env",
        λ p.
            some
              (get_by_identity_env istio params caches registered (at p "identity") (at p "env")),
      )
      ∷ []

  -- What a table of routes answers for a pattern; nothing for a pattern that it lacks.
  unfoldable pub answered :
      Table Handler
      → String
      → Table String
      → Option (Response FilterList ServiceList)
      → Option (Response FilterList ServiceList)
  answered [] pattern p other = other
  answered ((route, handler) ∷ routes) pattern p other =
      if route == pattern then handler p else answered routes pattern p other

  -- `SetupRouter`
  unfoldable pub respond : String → Table String → Option (Response FilterList ServiceList)
  unfolding answered
  respond pattern p =
      if pattern == health_check_path
      then some health_check
      else answered workload_routes pattern p (
          answered cluster_routes pattern p
            (answered dependency_routes pattern p (answered traffic_config_routes pattern p none)))

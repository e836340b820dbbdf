-- ===== src/RateLimits/Applied.antt =====
-- What `HandleRateLimiter` leaves in the clusters of an identity.
use naavik.Common.{String, true, false, ◌||◌, List, some, ◌≡◌, is_some}
use naavik.Common.Table
use naavik.Common.Table.{Table}
use naavik.Common.Types.{EventType}
use naavik.Options.{NaavikArgs, Compile, is_cluster_in_allowed_scope}
use naavik.Resources.{TrafficConfig, QuotaGroup}
use naavik.TrafficUtil.{get_identity, is_disabled}
use naavik.Cache.Clusters
use naavik.Cache.Identities
use naavik.EnvoyFilters.{FilterCall}
use naavik.EnvoyFilters.Laws.{run_calls, named}
use naavik.Handlers.{Caches}
use naavik.VirtualService.Targets.{targets}
use naavik.RateLimits.Routes.{Codec}
use naavik.RateLimits.Create.{Throttle, Filter, Istio, rate_limiting_selector}
use naavik.RateLimits.Handle.{is_delete, handle_cluster, handle_rate_limiter}
use naavik.RateLimits.Clusters.{calls_over, handle_clusters-over}
use naavik.RateLimits.Names.{is_throttle_name, create_rate_limiting_filters-names}

module _ {Clients : Type 0} (compile : Compile) (codec : Codec) (istio : Istio)
    (params : NaavikArgs) (caches : Caches) (registered : Clusters.Cache Clients) where
  creating_cluster :
      (tc : TrafficConfig) (event_type : EventType) (group : QuotaGroup) (cluster : String)
      (existing : List Filter)
      → tc.quota_group ≡ some group
      → istio.list_envoy_filters cluster (rate_limiting_selector params tc) ≡ some existing
      → (is_disabled tc || is_delete event_type) ≡ false
      → (calls : List (FilterCall Throttle)) × (handle_cluster compile codec istio params caches
            registered tc event_type cluster
          ≡ some calls)
        × ((m : Table Filter) (name : String)
            → is_some (Table.get m name) ≡ named existing name
            → is_some (Table.get (run_calls m calls) name)
              ≡ is_throttle_name codec istio params caches cluster tc tc.workload_env name)
  unfolding handle_cluster
  creating_cluster tc event_type group cluster existing e lists live = rw live (
      create_rate_limiting_filters-names codec istio params caches cluster tc group existing e
        lists)

  -- For an enabled configuration with a quota group that is added or updated, where every scope compiles and every listing answers, `HandleRateLimiter` makes its calls in exactly the clusters of
  -- the identity that are in scope and registered. If they succeed, such a cluster has after them, under
  -- each name for which its listing is complete, a filter exactly if the name is that of an environment
  -- of the configuration with a workload in the cluster, and of a configured proxy version.
  pub handle_rate_limiter-names :
      (tc : TrafficConfig) (event_type : EventType) (group : QuotaGroup)
      (listed : String → List Filter)
      → ((cluster : String) → is_some (is_cluster_in_allowed_scope compile params cluster) ≡ true)
      → ((cluster : String)
          → istio.list_envoy_filters cluster (rate_limiting_selector params tc)
            ≡ some (listed cluster))
      → tc.quota_group ≡ some group
      → (is_disabled tc || is_delete event_type) ≡ false
      → (calls : (String → List (FilterCall Throttle))) × (handle_rate_limiter compile codec istio
            params caches registered tc event_type
          ≡ some (
              calls_over registered calls (
                targets compile params registered (
                  Identities.get_clusters_for_identity caches.identities
                    (get_identity params tc)))))
        × ((cluster : String) (m : Table Filter) (name : String)
            → is_some (Table.get m name) ≡ named (listed cluster) name
            → is_some (Table.get (run_calls m (calls cluster)) name)
              ≡ is_throttle_name codec istio params caches cluster tc tc.workload_env name)
  unfolding handle_rate_limiter
  handle_rate_limiter-names tc event_type group listed compiles lists e live =
      let each = λ (cluster : String).
        creating_cluster tc event_type group cluster (listed cluster) e (lists cluster) live in
      (
        λ cluster. (each cluster).0,
        handle_clusters-over compile codec istio params caches registered tc event_type
            (λ cluster. (each cluster).0) _ compiles (λ cluster. (each cluster).1),
        λ cluster m name complete. (each cluster).2 m name complete,
      )

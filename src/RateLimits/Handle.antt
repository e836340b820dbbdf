-- ===== src/RateLimits/Handle.antt =====
-- rate_limiting_handler.go: `HandleRateLimiter`, over the clusters of an identity.
use naavik.Common.{
  String, Bool, true, false, ◌||◌, List, [], ◌∷◌, Option, none, some, if◌then◌else◌,
}
use naavik.Common.Types.{EventType, add, update, delete}
use naavik.Options.{NaavikArgs, Compile, is_cluster_in_allowed_scope}
use naavik.Resources.{TrafficConfig}
use naavik.TrafficUtil.{get_identity, is_disabled}
use naavik.Cache.Clusters
use naavik.Cache.Identities
use naavik.EnvoyFilters.{FilterCall, delete_envoy_filters}
use naavik.Handlers.{Caches}
use naavik.RateLimits.Routes.{Codec}
use naavik.RateLimits.Create.{
  Throttle, Filter, Istio, rate_limiting_selector, create_rate_limiting_filters, both_lists,
}

abbrev pub is_delete : EventType → Bool
is_delete add = false
is_delete update = false
is_delete delete = true

-- A call, with the cluster that it goes to.
abbrev pub ClusterCall : Type 0
ClusterCall = String × FilterCall Throttle

abbrev pub sent_to : String → List (FilterCall Throttle) → List ClusterCall
sent_to cluster_id [] = []
sent_to cluster_id (call ∷ calls) = (cluster_id, call) ∷ sent_to cluster_id calls

abbrev pub sent_if : String → Option (List (FilterCall Throttle)) → Option (List ClusterCall)
sent_if cluster_id none = none
sent_if cluster_id (some calls) = some (sent_to cluster_id calls)

module _ {Clients : Type 0} (compile : Compile) (codec : Codec) (istio : Istio)
    (params : NaavikArgs) (caches : Caches) (registered : Clusters.Cache Clients) where
  -- The deletion of what is listed; the items of a nil listing panic.
  abbrev pub deleted : String → Option (List Filter) → Option (List (FilterCall Throttle))
  deleted cluster_id none = none
  deleted cluster_id (some filters) =
      some (delete_envoy_filters (istio.fails cluster_id) none filters).0

  -- One registered cluster.
  unfoldable pub handle_cluster :
      TrafficConfig → EventType → String → Option (List (FilterCall Throttle))
  unfolding create_rate_limiting_filters delete_envoy_filters
  handle_cluster tc event_type cluster_id =
      if is_disabled tc || is_delete event_type
      then deleted cluster_id
          (istio.list_envoy_filters cluster_id (rate_limiting_selector params tc))
      else create_rate_limiting_filters codec istio params caches cluster_id tc

  abbrev pub one_cluster :
      TrafficConfig
      → EventType
      → Option Bool
      → Option (Clusters.RemoteCluster Clients)
      → Option (List ClusterCall)
  one_cluster tc event_type none rc = none
  one_cluster tc event_type (some false) rc = some []
  one_cluster tc event_type (some true) none = some []
  one_cluster tc event_type (some true) (some rc) =
      sent_if (Clusters.get_cluster_id rc)
        (handle_cluster tc event_type (Clusters.get_cluster_id rc))

  -- The loop over the clusters. `none` is a panic: a scope that does not compile, a nil listing or a
  -- nil quota group.
  unfoldable pub handle_clusters :
      TrafficConfig → EventType → List String → Option (List ClusterCall)
  unfolding handle_cluster
  handle_clusters tc event_type [] = some []
  handle_clusters tc event_type (cluster_id ∷ clusters) =
      both_lists
        (one_cluster tc event_type (is_cluster_in_allowed_scope compile params cluster_id)
          (Clusters.get_cluster registered cluster_id))
        (handle_clusters tc event_type clusters)

  unfoldable pub handle_rate_limiter : TrafficConfig → EventType → Option (List ClusterCall)
  unfolding handle_clusters
  handle_rate_limiter tc event_type =
      handle_clusters tc event_type
        (Identities.get_clusters_for_identity caches.identities (get_identity params tc))

-- ===== src/RateLimits/Clusters.antt =====
-- Which clusters `HandleRateLimiter` writes to, and what it deletes.
use naavik.Common.{
  String, true, ◌||◌, List, [], ◌∷◌, ◌++◌, Option, none, some, ◌≡◌, refl, ap, arith, is_some,
  Bool-cases, Option-cases, inl, inr,
}
use naavik.Common.Types.{EventType}
use naavik.Options.{NaavikArgs, Compile, is_cluster_in_allowed_scope}
use naavik.Resources.{TrafficConfig}
use naavik.TrafficUtil.{get_identity, is_disabled}
use naavik.Cache.Clusters
use naavik.Cache.Identities
use naavik.EnvoyFilters.{FilterCall, delete_envoy_filter, delete_envoy_filters, after_call}
use naavik.Handlers.{Caches}
use naavik.VirtualService.Targets.{targets}
use naavik.RateLimits.Routes.{Codec}
use naavik.RateLimits.Create.{Throttle, Filter, Istio, rate_limiting_selector}
use naavik.RateLimits.Handle.{
  ClusterCall, sent_to, is_delete, handle_cluster, handle_clusters, handle_rate_limiter,
}

-- The deletions of some filters, in order.
abbrev pub deletions : List Filter → List (FilterCall Throttle)
deletions [] = []
deletions (f ∷ filters) = delete_envoy_filter f.name f.namespace ∷ deletions filters

delete-deletions :
    (fails : FilterCall Throttle → Option String) (err : Option String) (filters : List Filter)
    → (delete_envoy_filters fails err filters).0 ≡ deletions filters
unfolding delete_envoy_filters
delete-deletions fails err [] = refl
delete-deletions fails err (f ∷ filters) =
    ap (λ t. delete_envoy_filter f.name f.namespace ∷ t)
      (delete-deletions fails (after_call err (fails (delete_envoy_filter f.name f.namespace)))
        filters)

module _ {Clients : Type 0} (registered : Clusters.Cache Clients) where
  -- The id of a cluster that is registered; it is what the calls go by.
  abbrev pub id_of : Option (Clusters.RemoteCluster Clients) → String
  id_of none = ""
  id_of (some rc) = Clusters.get_cluster_id rc

  -- The calls for each cluster of a list, by its id, one cluster after the other.
  abbrev pub calls_over : (String → List (FilterCall Throttle)) → List String → List ClusterCall
  calls_over f [] = []
  calls_over f (cluster ∷ clusters) =
      sent_to (id_of (Clusters.get_cluster registered cluster))
        (f (id_of (Clusters.get_cluster registered cluster)))
      ++ calls_over f clusters

module _ {Clients : Type 0} (compile : Compile) (codec : Codec) (istio : Istio)
    (params : NaavikArgs) (caches : Caches) (registered : Clusters.Cache Clients) where
  pub handle_clusters-over :
      (tc : TrafficConfig) (event_type : EventType) (f : String → List (FilterCall Throttle))
      (clusters : List String)
      → ((cluster : String) → is_some (is_cluster_in_allowed_scope compile params cluster) ≡ true)
      → ((cluster : String)
          → handle_cluster compile codec istio params caches registered tc event_type cluster
            ≡ some (f cluster))
      → handle_clusters compile codec istio params caches registered tc event_type clusters
        ≡ some (calls_over registered f (targets compile params registered clusters))
  unfolding handle_clusters
  handle_clusters-over tc event_type f [] compiles each = refl
  handle_clusters-over tc event_type f (cluster ∷ clusters) compiles each =
      let rest = handle_clusters-over tc event_type f clusters compiles each in
      elim (Option-cases (is_cluster_in_allowed_scope compile params cluster)) [
        | inl bad ↦ absurd (ground (arith, compiles cluster))
        | inr (b, e) ↦ elim (Bool-cases b) [
          | inr out ↦ rw (e, out, rest) refl
          | inl inside ↦ elim (Option-cases (Clusters.get_cluster registered cluster)) [
            | inl z ↦ rw (e, inside, z, rest) refl
            | inr (rc, z) ↦ rw (e, inside, z, rest, each (Clusters.get_cluster_id rc)) (rw z refl)
          ]
        ]
      ]

  deleting_cluster :
      (tc : TrafficConfig) (event_type : EventType) (cluster : String) (filters : List Filter)
      → istio.list_envoy_filters cluster (rate_limiting_selector params tc) ≡ some filters
      → (is_disabled tc || is_delete event_type) ≡ true
      → handle_cluster compile codec istio params caches registered tc event_type cluster
        ≡ some (deletions filters)
  unfolding handle_cluster
  deleting_cluster tc event_type cluster filters lists gone =
      rw (gone, lists) (ap some (delete-deletions (istio.fails cluster) none filters))

  -- For a configuration that is disabled, or that is deleted, and where every scope compiles and every listing answers, `HandleRateLimiter` makes exactly the deletions of what
  -- is listed, in each cluster of the identity that is in scope and registered, one after the other.
  pub handle_rate_limiter-deletes :
      (tc : TrafficConfig) (event_type : EventType) (listed : String → List Filter)
      → ((cluster : String) → is_some (is_cluster_in_allowed_scope compile params cluster) ≡ true)
      → ((cluster : String)
          → istio.list_envoy_filters cluster (rate_limiting_selector params tc)
            ≡ some (listed cluster))
      → (is_disabled tc || is_delete event_type) ≡ true
      → handle_rate_limiter compile codec istio params caches registered tc event_type
        ≡ some (
            calls_over registered
              (λ cluster. deletions (listed cluster))
              (targets compile params registered
                (Identities.get_clusters_for_identity caches.identities (get_identity params tc))))
  unfolding handle_rate_limiter
  handle_rate_limiter-deletes tc event_type listed compiles lists gone =
      handle_clusters-over tc event_type (λ cluster. deletions (listed cluster)) _ compiles
        (λ cluster. deleting_cluster tc event_type cluster (listed cluster) (lists cluster) gone)

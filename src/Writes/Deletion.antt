-- ===== src/Writes/Deletion.antt =====
-- What the deletion of a TrafficConfig writes.
use naavik.Common.{
  String, Bool, true, false, List, [], ◌∷◌, ◌++◌, append-nil, Option, none, some, ◌≡◌, refl, arith,
  is_some, if◌then◌else◌,
}
use naavik.Common.Types.{EventType, feature_virtual_service, feature_throttle_filter}
use naavik.Options.{
  Compile, NaavikArgs, is_cluster_in_allowed_scope, is_feature_enabled, is_cache_warmed_up,
}
use naavik.Resources.{TrafficConfig, EdgeService}
use naavik.TrafficUtil.{get_identity, is_disabled}
use naavik.Cache.Clusters
use naavik.Cache.Identities
use naavik.Cache.Dependencies
use naavik.Cache.TrafficConfigs.{delete_traffic_config_from_cache}
use naavik.Controller.Status.{skip_close}
use naavik.Handlers.{
  Caches, Setting, StatusChan, Outcome, finish, handle_rate_limiter, handle_virtual_service,
}
use naavik.Handlers.Kept.{is_open, open_cases}
use naavik.Handlers.TrafficConfig.{config_deleted, calls_for}
use naavik.VirtualService.Build.{
  VirtualService, build_virtual_service_for_mesh_dependents, build_virtual_service_object,
  build_virtual_service_without_target_details,
}
use naavik.VirtualService.Apply.{
  Existing, ApiCall, handle_virtual_service_for_mesh_dependents,
  handle_virtual_service_for_traffic_config, apply_all,
}
use naavik.VirtualService.Targets.{all_deletions, apply_all-targets, targets}
use naavik.RateLimits.Create.{Filter, rate_limiting_selector}
use naavik.RateLimits.Clusters.{calls_over, deletions, handle_rate_limiter-deletes}
use naavik.Writes.{World, filter_writes, service_writes, writes_of, writes_of_all}

abbrev annotated : Option VirtualService → Bool
annotated none = true
annotated (some vs) = is_some vs.annotations

-- A built virtual service has annotations, if there is an edge service.
built-annotations :
    (params : NaavikArgs) (tc : TrafficConfig) (edge : EdgeService)
    → tc.edge_service ≡ some edge
    → annotated (build_virtual_service_for_mesh_dependents params tc) ≡ true
unfolding build_virtual_service_for_mesh_dependents build_virtual_service_object
    build_virtual_service_without_target_details
built-annotations params tc edge e = rw e (ground arith)

module _ {Clients : Type 0} (compile : Compile) (params : NaavikArgs)
    (identities : Identities.Cache) (dependencies : Dependencies.Cache)
    (registered : Clusters.Cache Clients) (existing : Existing) where
  -- The calls are made without a panic, and they are of one kind.
  pub record IsKind (b : Bool) (o : Option (List ApiCall)) : Type 0 where
    pub calls : List ApiCall
    pub made : o ≡ some calls
    pub kind : all_deletions b calls ≡ true

  none_made : (b : Bool) → IsKind b (some [])
  none_made true = record { calls = []; made = refl; kind = refl }
  none_made false = record { calls = []; made = refl; kind = refl }

  IsKind-if :
      {o : Option (List ApiCall)} (b skip : Bool)
      → IsKind b o
      → IsKind b (if skip then some [] else o)
  IsKind-if b true made = none_made b
  IsKind-if b false made = made

  IsKind-built :
      (tc : TrafficConfig) (clusters : List String) (built : Option VirtualService)
      → ((cluster : String) → is_some (is_cluster_in_allowed_scope compile params cluster) ≡ true)
      → annotated built ≡ true
      → IsKind (is_disabled tc) (elim built [
        | none ↦ some []
        | some vs ↦ apply_all compile params registered existing tc vs clusters
      ])
  IsKind-built tc clusters none compiles h = none_made (is_disabled tc)
  IsKind-built tc clusters (some vs) compiles h =
      let (calls, made, sent, kind) =
        apply_all-targets compile params registered existing tc vs clusters compiles h in
      record { calls = calls; made = made; kind = kind }

  for_dependents :
      (tc : TrafficConfig) (edge : EdgeService) (dependents : List String)
      → ((cluster : String) → is_some (is_cluster_in_allowed_scope compile params cluster) ≡ true)
      → tc.edge_service ≡ some edge
      → IsKind (is_disabled tc) (
          handle_virtual_service_for_mesh_dependents compile params identities registered existing
            "" dependents tc)
  unfolding handle_virtual_service_for_mesh_dependents
  for_dependents tc edge dependents compiles e = IsKind-if (is_disabled tc) _ (
      IsKind-built tc _ (build_virtual_service_for_mesh_dependents params tc) compiles
        (built-annotations params tc edge e))

  pub for_traffic_config :
      (tc : TrafficConfig) (edge : EdgeService)
      → ((cluster : String) → is_some (is_cluster_in_allowed_scope compile params cluster) ≡ true)
      → tc.edge_service ≡ some edge
      → IsKind (is_disabled tc) (
          handle_virtual_service_for_traffic_config compile params identities dependencies
            registered existing tc)
  unfolding handle_virtual_service_for_traffic_config
  for_traffic_config tc edge compiles e =
      IsKind-if (is_disabled tc) _
        (IsKind-if (is_disabled tc) _ (for_dependents tc edge _ compiles e))

module _ {Clients : Type 0} (world : World Clients) (setting : Setting) where
  -- The lease allows writes, the caches are warm, and both features are on.
  pub record IsLive : Type 0 where
    pub writable : setting.is_read_only ≡ false
    pub warm : is_cache_warmed_up setting.params setting.elapsed ≡ true
    pub throttles : is_feature_enabled setting.params feature_throttle_filter ≡ true
    pub services : is_feature_enabled setting.params feature_virtual_service ≡ true

  live_calls :
      (tc : TrafficConfig) (event_type : EventType)
      → IsLive
      → calls_for setting tc event_type
        ≡ handle_rate_limiter tc event_type ∷ handle_virtual_service tc ∷ []
  unfolding calls_for
  live_calls tc event_type live = rw (live.writable, live.warm, live.throttles, live.services) refl

  deletion_writes :
      (caches : Caches) (tc : TrafficConfig) (edge : EdgeService) (listed : String → List Filter)
      → tc.edge_service ≡ some edge
      → ((cluster : String)
          → is_some (is_cluster_in_allowed_scope world.compile setting.params cluster) ≡ true)
      → ((cluster : String)
          → world.istio.list_envoy_filters cluster (rate_limiting_selector setting.params tc)
            ≡ some (listed cluster))
      → (calls : List ApiCall) × (writes_of_all world setting caches
            (handle_rate_limiter tc EventType.delete ∷ handle_virtual_service tc ∷ [])
          ≡ some (
              filter_writes (
                calls_over world.registered
                  (λ cluster. deletions (listed cluster))
                  (targets world.compile setting.params world.registered (
                    Identities.get_clusters_for_identity caches.identities
                      (get_identity setting.params tc))))
              ++ service_writes calls))
        × (all_deletions (is_disabled tc) calls ≡ true)
  unfolding writes_of_all writes_of
  deletion_writes caches tc edge listed e compiles lists =
      let services =
        for_traffic_config world.compile setting.params caches.identities caches.dependencies
          world.registered world.existing tc edge compiles e in
      let limits =
        handle_rate_limiter-deletes world.compile world.codec world.istio setting.params caches
          world.registered tc EventType.delete listed compiles lists (ground arith) in
      (
        services.calls,
        rw (limits, services.made, append-nil (service_writes services.calls)) refl,
        services.kind,
      )

  -- When a TrafficConfig with an edge service is deleted, the writes of the handler end without a
  -- panic; for a setting that writes, scopes that compile, listings that answer and a channel that is
  -- open. They are the deletions of the listed throttle filters, in the allowed and registered
  -- clusters of the identity, and then the calls for virtual services, of which each one is a
  -- deletion if the configuration is disabled, and none is if it is not: the virtual services of an
  -- enabled configuration stay.
  pub config_deleted-writes :
      (caches : Caches) (tc : TrafficConfig) (edge : EdgeService) (ch : StatusChan)
      (listed : String → List Filter)
      → IsLive
      → is_open ch ≡ true
      → tc.edge_service ≡ some edge
      → ((cluster : String)
          → is_some (is_cluster_in_allowed_scope world.compile setting.params cluster) ≡ true)
      → ((cluster : String)
          → world.istio.list_envoy_filters cluster (rate_limiting_selector setting.params tc)
            ≡ some (listed cluster))
      → (outcome : Outcome) × (config_deleted setting caches tc ch ≡ some outcome)
        × ((calls : List ApiCall) × (writes_of_all world setting outcome.caches outcome.trail.calls
              ≡ some (
                  filter_writes (
                    calls_over world.registered
                      (λ cluster. deletions (listed cluster))
                      (targets world.compile setting.params world.registered (
                        Identities.get_clusters_for_identity caches.identities
                          (get_identity setting.params tc))))
                  ++ service_writes calls))
            × (all_deletions (is_disabled tc) calls ≡ true))
  unfolding config_deleted finish skip_close
  config_deleted-writes caches tc edge ch listed live opened e compiles lists =
      let (sent, is_ch) = open_cases ch opened in
      let after : Caches = record caches {
        traffic_configs = delete_traffic_config_from_cache setting.params caches.traffic_configs tc;
      } in
      let (calls, made, kind) = deletion_writes after tc edge listed e compiles lists in
      rw (is_ch, live_calls tc EventType.delete live) (_, refl, (calls, made, kind))

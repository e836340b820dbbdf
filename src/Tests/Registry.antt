-- ===== src/Tests/Registry.antt =====
-- Runs of the registry of remote clusters, of the API, of the lease and of the shutdown.
use naavik.Common.{
  ℕ, String, true, false, ◌&&◌, ◌||◌, [], ◌∷◌, none, some, ◌≡◌, ◌⊎◌, refl, ◌==◌, if◌then◌else◌,
  is_some,
}
use naavik.Common.Table.{Table}
use naavik.Common.Table.Laws.{Entries}
use naavik.Common.Text.{to_lower}
use naavik.Meta.{ObjectMeta}
use naavik.Resources.{Object}
use naavik.TrafficUtil.{get_identity}
use naavik.Cache.Clusters
use naavik.Cache.Clusters.{RemoteCluster, get_cluster}
use naavik.Cache.Controllers
use naavik.Cache.Controllers.{ControllerContext}
use naavik.Cache.Dependencies
use naavik.Cache.Identities
use naavik.Handlers.{Caches}
use naavik.Controller.Shutdown.{
  stop_all_controllers, closed_after, has_channel, stop_all_controllers-closes,
}
use naavik.RemoteClusters.{Loader, Clients}
use naavik.RemoteClusters.Resolve.{secret_config_resolver}
use naavik.RemoteClusters.Controllers.{Registry, Stop, is_closed}
use naavik.RemoteClusters.Secrets.{added, deleted, identifier_of}
use naavik.RemoteClusters.Reads.{has_cluster, resolvable}
use naavik.RemoteClusters.Handling.{registry_of, added-reads, deleted-added}
use naavik.RemoteClusters.Steps.{initial, at_start, then_step, controller_registered}
use naavik.RemoteClusters.Valid.{IsValid}
use naavik.RemoteClusters.Invariant.{Reach-IsValid}
use naavik.Server.{Istio, filter_list, service_list, listed, resources, status_ok}
use naavik.Server.Answers.{identity_selector}
use naavik.Server.Gathered.{
  Resources, resource_selector, get_resources_related_to_identity, clusters_of_all,
  throttle_filters_of, virtual_services_of,
}
use naavik.Server.Selectors.{resource_selector-selects}
use naavik.Server.Exact.{held, reaches, get_resources_related_to_identity-exact}
use naavik.RateLimits.Create.{throttle_filter}
use naavik.RateLimits.Names.{selects}
use naavik.VirtualService.Build.{build_virtual_service_object}
use naavik.Tests.Data.{params, tc, no_caches, fresh_chan, cluster}
use naavik.Tests.RateLimits.{codec, istio, caches}

-- A loader for which every configuration but one loads.
abbrev loader : Loader String String String (Unit {0})
loader = record {
  load = λ config. if config == "bad" then none else some config;
  default_client_config = λ config. config;
  raw_config = λ config. some config;
  client_config = λ config. some config;
  host = λ config. config;
  client_from_config = λ config. some tt;
  istio_client_from_config = λ config. some tt;
  argo_client_from_config = λ config. some tt;
  admiral_client_from_config = λ config. some tt;
}

abbrev nothing : Registry (Clients String (Unit {0}))
nothing = initial loader secret_config_resolver params

abbrev secret_meta : ObjectMeta
secret_meta = record {
  name = "west";
  namespace = "admiral";
  labels = ("admiral.io/sync", "true") ∷ [];
  annotations = [];
  resource_version = "1";
}

abbrev secret_data : Table String
secret_data = ("cluster1", "one") ∷ ("cluster2", "bad") ∷ []

abbrev after_added : Registry (Clients String (Unit {0}))
after_added = registry_of nothing (
    added loader secret_config_resolver params nothing (Object.secret secret_meta secret_data)
      fresh_chan)

added-reads_example :
    (is_some (
        added loader secret_config_resolver params nothing
          (Object.secret secret_meta secret_data)
          fresh_chan)
      ≡ true)
    × ((k : String) (rc : RemoteCluster (Clients String (Unit {0})))
        → get_cluster nothing.clusters k ≡ some rc
        → get_cluster after_added.clusters k ≡ some rc)
    × ((k : String) (rc : RemoteCluster (Clients String (Unit {0})))
        → get_cluster after_added.clusters k ≡ some rc
        → (get_cluster nothing.clusters k ≡ some rc)
          ⊎ ((rc.secret_identifier ≡ identifier_of secret_meta)
              × (has_cluster secret_data k ≡ true)))
    × Entries
        (λ cluster_id config.
          resolvable loader secret_config_resolver params
              (identifier_of secret_meta)
              cluster_id
              config
            ≡ true
          → is_some (get_cluster after_added.clusters cluster_id) ≡ true)
        secret_data
unfolding naavik.Meta.is_sync_enabled to_lower naavik.Common.Table.get
added-reads_example =
    added-reads loader secret_config_resolver params nothing secret_meta secret_data fresh_chan refl
      refl

fresh_registry :
    (id : String) → has_cluster secret_data id ≡ true → get_cluster nothing.clusters id ≡ none
unfolding get_cluster naavik.Common.Table.get
fresh_registry id h = refl

deleted-added_example :
    get_cluster
      (registry_of after_added
        (deleted after_added (Object.secret secret_meta secret_data) fresh_chan)).clusters
      "cluster1"
    ≡ none
unfolding naavik.Meta.is_sync_enabled to_lower naavik.Common.Table.get get_cluster
deleted-added_example =
    deleted-added loader secret_config_resolver params nothing secret_meta secret_data fresh_chan
      fresh_chan "cluster1" refl refl refl fresh_registry

abbrev context : ControllerContext ℕ
context = record { worker_ctx = []; stop_ch = some 3 }

abbrev stop : Stop
stop = record { name = "service-controller/cluster1"; context = context; cluster_id = "cluster1" }

abbrev draining_state : Registry (Clients String (Unit {0}))
draining_state = record nothing { draining = stop ∷ [] }

abbrev with_controller : Registry (Clients String (Unit {0}))
with_controller = record nothing {
  controllers = Controllers.register [] "Service-Controller/Cluster1" context;
}

Reach-IsValid_example : IsValid with_controller
unfolding naavik.RemoteClusters.Controllers.register_controller
Reach-IsValid_example =
    Reach-IsValid loader secret_config_resolver params
      (then_step at_start (controller_registered "Service-Controller/Cluster1" context))

abbrev two_controllers : Controllers.Cache ℕ
two_controllers =
    ("a", record { worker_ctx = []; stop_ch = some 1 })
    ∷ ("b", record { worker_ctx = []; stop_ch = some 2 })
    ∷ []

stop_all_controllers-closes_example :
    (is_some (stop_all_controllers (7 ∷ []) two_controllers) ≡ true)
    × (true ≡ true
        → (ch : ℕ)
        → is_closed (closed_after (7 ∷ []) (stop_all_controllers (7 ∷ []) two_controllers)) ch
          ≡ (is_closed (7 ∷ []) ch || has_channel two_controllers ch))
stop_all_controllers-closes_example = stop_all_controllers-closes (7 ∷ []) two_controllers

resource_selector-selects_example :
    let filter : Table String =
      (throttle_filter codec istio params caches "cluster1" tc [] "qa" "1.21" []).spec.labels in
    let service : Table String = (build_virtual_service_object params tc []).labels in
    (selects (resource_selector "PAYMENTS" "qa") filter ≡ true)
    × (selects (resource_selector "PAYMENTS" "qa") service ≡ false)
    × (selects (identity_selector "PAYMENTS") filter ≡ false)
unfolding to_lower get_identity naavik.Common.Table.get
resource_selector-selects_example =
    resource_selector-selects codec istio params caches "cluster1" "qa" "1.21" "PAYMENTS" "qa" tc []
      [] []

abbrev listings : Istio String String
listings = record {
  list_envoy_filters = λ name namespace selector. listed name;
  list_virtual_services = λ name namespace selector. listed name;
}

abbrev api_caches : Caches
api_caches = record no_caches {
  identities =
      Identities.add_cluster_to_identity
        (Identities.add_cluster_to_identity [] "Payments" "Cluster1") "Web" "Cluster1";
  dependencies = Dependencies.add_dependent_to_identity no_caches.dependencies "Payments" "Web";
}

abbrev registered : Clusters.Cache (Unit {0})
registered = Clusters.add_cluster [] cluster

get_resources_related_to_identity-exact_example :
    (m : Resources String String) × (get_resources_related_to_identity listings params api_caches
        registered "payments"
      ≡ some (record { status = status_ok; body = resources m }))
    × ((id name : String)
        → held m id name ≡ (
            if reaches listings params api_caches registered ("cluster1" ∷ []) id
              && virtual_services_of "payments" == name
            then some (service_list id)
            else if reaches listings params api_caches registered ("cluster1" ∷ []) id
                && throttle_filters_of "payments" == name
            then some (filter_list id)
            else none))
unfolding get_cluster clusters_of_all naavik.Common.Table.get
    Dependencies.get_dependents_for_identity Clusters.add_cluster
    Dependencies.add_dependent_to_identity naavik.Common.Table.set Dependencies.relate to_lower
    Identities.get_clusters_for_identity naavik.Set.list_items naavik.Set.add naavik.Set.new_set
    Identities.add_cluster_to_identity
get_resources_related_to_identity-exact_example =
    get_resources_related_to_identity-exact listings params api_caches registered "payments"
      (λ name. name) (λ name. name) (λ name. refl) (λ name. refl)

-- ===== src/Tests/VirtualServices.antt =====
-- The virtual service of one application, in two clusters, and its filters in one.
use naavik.Common.{
  Option, true, false, is_some, ◌==◌, if◌then◌else◌, ℕ, ◌/◌, String, List, [], ◌∷◌, none, some, ◌≡◌,
  refl,
}
use naavik.Common.Text.{to_lower, join}
use naavik.Options.{Compile, is_cluster_in_allowed_scope}
use naavik.Resources.{Route, EdgeService}
use naavik.Set.Laws.{listed}
use naavik.Cache.Clusters
use naavik.TrafficUtil.{is_disabled}
use naavik.VirtualService.Build.{
  VirtualService, construct_hosts_for_virtual_service, build_virtual_service_object,
  construct_vs_route_without_target_details,
}
use naavik.VirtualService.Apply.{
  Existing, ApiCall, create_virtual_service, update_virtual_service, apply_all,
}
use naavik.VirtualService.Hosts.{
  construct_hosts-exact, HasTimeouts, without_targets-timeouts, no_repeats,
}
use naavik.VirtualService.Targets.{
  apply_all-targets, apply_all-creation, clusters_of, all_deletions,
}
use naavik.EnvoyFilters.{EnvoyFilter, FilterCall, apply_envoy_filters}
use naavik.EnvoyFilters.Laws.{run_calls, apply_envoy_filters-exact}
use naavik.Common.Table
use naavik.Common.Table.{Table}
use naavik.Tests.Data.{params, tc, cluster}

abbrev vs : VirtualService
vs = build_virtual_service_object params tc []

construct_hosts-exact_example :
    (listed
        (construct_hosts_for_virtual_service params ("qal" ∷ "QAL" ∷ []) "payments")
        "qal.payments.mesh"
      ≡ true)
    × (no_repeats (construct_hosts_for_virtual_service params ("qal" ∷ "QAL" ∷ []) "payments")
        ≡ true)
unfolding naavik.Common.Types.get_host to_lower join
construct_hosts-exact_example =
    construct_hosts-exact params ("qal" ∷ "QAL" ∷ []) "payments" "qal.payments.mesh"

abbrev slow : Route
slow = record {
  name = "slow";
  inbound = "/";
  outbound = "/";
  timeout = 2500;
  workload_env_selectors = "qal" ∷ [];
  config = none;
}

abbrev edge : EdgeService
edge = record { routes = slow ∷ []; targets = none; target_groups = none }

without_targets-timeouts_example :
    HasTimeouts none (construct_vs_route_without_target_details params tc edge slow)
without_targets-timeouts_example = without_targets-timeouts params tc edge slow

-- Every pattern compiles, and matches every text.
abbrev matching : Compile
matching pattern = some (λ text. true)

matching_compiles :
    (name : String) → is_some (is_cluster_in_allowed_scope matching params name) ≡ true
unfolding is_cluster_in_allowed_scope
matching_compiles name = refl

abbrev registered : Clusters.Cache (Unit {0})
registered = Clusters.add_cluster [] cluster

-- The first cluster has the virtual service, in version 7.
abbrev in_first : Existing
in_first name vs_name = if name == "cluster1" then some "7" else none

abbrev both : List String
both = "cluster1" ∷ "cluster2" ∷ []

apply_all-targets_example :
    (calls : List ApiCall) × (apply_all matching params registered in_first tc vs both ≡ some calls)
    × (clusters_of calls ≡ "cluster1" ∷ [])
    × (all_deletions false calls ≡ true)
unfolding is_cluster_in_allowed_scope is_disabled Clusters.get_cluster naavik.Common.Table.get
    Clusters.add_cluster naavik.Common.Table.set to_lower build_virtual_service_object
apply_all-targets_example =
    apply_all-targets matching params registered in_first tc vs both matching_compiles refl

abbrev two_clusters : Clusters.Cache (Unit {0})
two_clusters = Clusters.add_cluster registered (record cluster { cluster_id = "cluster2" })

apply_all-creation_example :
    let object : VirtualService = record vs { resource_version = "7" } in
    apply_all matching params two_clusters in_first tc vs ("cluster1" ∷ "cluster2" ∷ [])
    ≡ some
        (update_virtual_service "cluster1" object ∷ create_virtual_service "cluster2" object ∷ [])
unfolding is_disabled naavik.Common.Table.get is_cluster_in_allowed_scope Clusters.get_cluster
    Clusters.add_cluster naavik.Common.Table.set to_lower build_virtual_service_object
apply_all-creation_example =
    apply_all-creation matching params two_clusters in_first "cluster1" "cluster2" "7" vs tc refl
      refl refl refl refl refl refl refl

abbrev limit : String → ℕ → EnvoyFilter ℕ
limit name spec = record { name = name; namespace = "istio-system"; spec = spec }

-- One filter is to be replaced, one created and one deleted.
abbrev in_cluster : Table (EnvoyFilter ℕ)
in_cluster = ("a", limit "a" 1) ∷ ("b", limit "b" 1) ∷ []

abbrev wanted : List (EnvoyFilter ℕ)
wanted = limit "a" 2 ∷ limit "c" 2 ∷ []

abbrev there : List (EnvoyFilter ℕ)
there = limit "a" 1 ∷ limit "b" 1 ∷ []

abbrev failing : FilterCall ℕ → Option String
failing call = some "refused"

apply_envoy_filters-exact_example :
    (Table.get (run_calls in_cluster (apply_envoy_filters failing wanted there).0) "a"
      ≡ some (limit "a" 2))
    × ((apply_envoy_filters failing wanted there).1 ≡ none)
unfolding to_lower Table.get
apply_envoy_filters-exact_example =
    apply_envoy_filters-exact failing wanted there in_cluster "a" refl

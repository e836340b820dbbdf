-- ===== src/Tests/Caches.antt =====
-- The caches at concrete objects.
use naavik.Common.{true, [], ◌∷◌, none, some, ◌≡◌, ◌≢◌, arith, eq_iff}
use naavik.Common.Table
use naavik.Common.Text.{to_lower}
use naavik.Cache.Deployments
use naavik.Cache.Deployments.Laws.{add-IsValid}
use naavik.Cache.Nested
use naavik.Cache.Nested.Valid
use naavik.Cache.Identities
use naavik.Cache.Dependencies
use naavik.Cache.Dependencies.Laws.{IsTrimmed, updates-IsTrimmed}
use naavik.Cache.TrafficConfigs
use naavik.Cache.TrafficConfigs.Valid.{add_traffic_config_to_cache-IsValid}
use naavik.Cache.TrafficConfigs.Laws.{
  get-add_traffic_config_to_cache, get-delete_traffic_config_from_cache,
}
use naavik.Options
use naavik.Options.Laws.{is_asset_ignored-contains_fold}
use naavik.Tests.Data.{params, pay, tc}

abbrev one_deployment : Deployments.Cache
one_deployment = Deployments.add params [] "Cluster1" pay

no_deployments-IsValid : Nested.Valid.IsValid {A = naavik.Resources.Workload} []
no_deployments-IsValid = record { distinct = tt; clusters = tt }

one_deployment-IsValid : Nested.Valid.IsValid one_deployment
one_deployment-IsValid = add-IsValid params [] "Cluster1" pay no_deployments-IsValid

pay-named : Deployments.identity_of params pay ≢ ""
unfolding to_lower naavik.Meta.get_workload_identifier Table.get
pay-named = ground (arith, eq_iff "payments" "")

abbrev pay_runs : Identities.Cache
pay_runs = Identities.add_cluster_to_identity [] "Payments" "Cluster1"

abbrev no_relations : Dependencies.Cache
no_relations = record { dependencies = []; dependents = [] }

abbrev web_depends : Dependencies.Cache
web_depends = Dependencies.add_dependency_to_identity no_relations "Web" "Payments"

abbrev pay_serves : Dependencies.Cache
pay_serves = Dependencies.add_dependent_to_identity no_relations "Payments" "Web"

no_relations-IsTrimmed : IsTrimmed no_relations
no_relations-IsTrimmed = record { dependencies = tt; dependents = tt }

updates-IsTrimmed_example :
    IsTrimmed (Dependencies.add_dependency_to_identity no_relations "Web" "Payments")
    × IsTrimmed (Dependencies.add_dependent_to_identity no_relations "Web" "Payments")
    × IsTrimmed (Dependencies.delete_dependency_from_identity no_relations "Web" "Payments")
    × IsTrimmed (Dependencies.delete_dependent_from_identity no_relations "Web" "Payments")
updates-IsTrimmed_example = updates-IsTrimmed no_relations "Web" "Payments" no_relations-IsTrimmed

abbrev one_config : TrafficConfigs.Cache
one_config = TrafficConfigs.add_traffic_config_to_cache params [] tc

no_configs-IsValid : TrafficConfigs.Valid.IsValid []
no_configs-IsValid = record { distinct = tt; entries = tt }

one_config-IsValid : TrafficConfigs.Valid.IsValid one_config
one_config-IsValid = add_traffic_config_to_cache-IsValid params [] tc no_configs-IsValid

get-add_traffic_config_to_cache_example :
    TrafficConfigs.get (TrafficConfigs.add_traffic_config_to_cache params [] tc) "PAYMENTS" "QA"
    ≡ some tc
unfolding to_lower naavik.TrafficUtil.get_env Table.get naavik.TrafficUtil.get_identity
get-add_traffic_config_to_cache_example =
    get-add_traffic_config_to_cache params [] tc "PAYMENTS" "QA" no_configs-IsValid

get-delete_traffic_config_from_cache_example :
    TrafficConfigs.get
      (TrafficConfigs.delete_traffic_config_from_cache params one_config tc)
      "payments"
      "qa"
    ≡ none
unfolding to_lower naavik.TrafficUtil.get_env Table.get naavik.TrafficUtil.get_identity
    TrafficConfigs.get TrafficConfigs.add_traffic_config_to_cache Table.set
get-delete_traffic_config_from_cache_example =
    get-delete_traffic_config_from_cache params one_config tc "payments" "qa"

abbrev with_ignored : naavik.Options.NaavikArgs
with_ignored = record params { ignore_asset_aliases = some ("Legacy.App" ∷ []) }

is_asset_ignored-contains_fold_example : Options.is_asset_ignored with_ignored "legacy.APP" ≡ true
unfolding to_lower
is_asset_ignored-contains_fold_example = is_asset_ignored-contains_fold with_ignored "legacy.APP"

-- ===== src/RateLimits/Create.antt =====
-- rate_limiting_handler.go and rate_limiting_helper.go: the filters of a cluster. The answers of the
-- Istio API to reads are parameters.
use naavik.Common.{String, List, [], ◌∷◌, ◌++◌, Option, none, some, if◌then◌else◌}
use naavik.Common.Table
use naavik.Common.Table.{Table}
use naavik.Common.Text.{to_lower, join}
use naavik.Common.Types.{
  namespace_istio_system, naavik_name, transaction_id_key, revision_number_key, created_by_key,
  created_type_key, created_for_key, created_for_env_key, created_for_traffic_env_key,
}
use naavik.Options.{NaavikArgs, items}
use naavik.Resources.{Workload, TrafficConfig}
use naavik.TrafficUtil.{
  get_identity, get_identity_lower_case, get_revision, get_transaction_id, get_env,
}
use naavik.Cache.Deployments
use naavik.Cache.Rollouts
use naavik.EnvoyFilters.{EnvoyFilter, FilterCall, apply_envoy_filters}
use naavik.Handlers.{Caches}
use naavik.RateLimits.Routes.{Codec, ConfigPatch}
use naavik.RateLimits.Loops.{create_config_patches}

-- What a filter holds beside its name and its namespace. Its kind and priority are constants.
pub record Throttle : Type 0 where
  pub annotations : Table String
  pub labels : Table String
  pub resource_version : String
  pub workload_selector : Table String
  pub config_patches : List ConfigPatch

abbrev pub Filter : Type 0
Filter = EnvoyFilter Throttle

-- The Istio clients of the clusters: what a listing by labels in istio-system returns, which is nil
-- where it is `none`; the resource version of what a read by name returns, if that is not nil; and
-- the error of a write, which is only logged.
pub record Istio : Type 0 where
  pub list_envoy_filters : String → Table String → Option (List Filter)
  pub get_envoy_filter : String → String → Option String
  pub fails : String → FilterCall Throttle → Option String

-- pkg/utils/envoyfilter_utils.go
unfoldable pub get_name : String → String → String → String
get_name prefix filter_name suffix = to_lower (join (prefix ∷ filter_name ∷ suffix ∷ []) "-")

-- The labels that `listRateLimitingFilters` selects by
unfoldable pub rate_limiting_selector : NaavikArgs → TrafficConfig → Table String
rate_limiting_selector params tc =
    (created_for_key, get_identity_lower_case params tc)
    ∷ (created_for_traffic_env_key, get_env tc)
    ∷ []

abbrev app_label : Option Workload → Option String
app_label none = none
app_label (some w) = Table.get w.meta.labels "app"

-- The labels with an app; else another answer.
abbrev pub labelled :
    String → String → Option String → Option (Table String) → Option (Table String)
labelled identity env none other = other
labelled identity env (some app) other =
    some (("app", app) ∷ ("assetAlias", identity) ∷ ("env", env) ∷ [])

-- `none` is the error that no workload matches.
unfoldable pub get_workload_labels :
    NaavikArgs → Caches → String → String → String → Option (Table String)
get_workload_labels params caches cluster_id identity env =
    labelled identity env
      (app_label
        (Deployments.get_by_cluster_identity_env caches.deployments cluster_id identity env))
      (if params.argo_rollouts_enabled
        then labelled identity env
            (app_label
              (Rollouts.get_by_cluster_identity_env caches.rollouts cluster_id identity env))
            none
        else none)

-- `append` to a list of filters that may be missing for a panic
abbrev pub cons_some {ℓ} : {A : Type ℓ} → Option A → Option (List A) → Option (List A)
cons_some none rest = none
cons_some (some x) none = none
cons_some (some x) (some rest) = some (x ∷ rest)

abbrev pub both_lists {ℓ} : {A : Type ℓ} → Option (List A) → Option (List A) → Option (List A)
both_lists none rest = none
both_lists (some l) none = none
both_lists (some l) (some rest) = some (l ++ rest)

abbrev version_or : Option String → String → String
version_or none version = version
version_or (some existing) version = existing

module _ (codec : Codec) (istio : Istio) (params : NaavikArgs) (caches : Caches) where
  abbrev pub throttle_name : TrafficConfig → String → String → String
  throttle_name tc env version =
      get_name (get_identity params tc) "throttle" (join (env ∷ version ∷ []) "-")

  -- The filter of an environment for a proxy version
  abbrev pub throttle_filter :
      String → TrafficConfig → Table String → String → String → List ConfigPatch → Filter
  throttle_filter cluster_id tc workload_labels env version patches = record {
    name = throttle_name tc env version;
    namespace = namespace_istio_system;
    spec = record {
      annotations =
          (revision_number_key, get_revision tc) ∷ (transaction_id_key, get_transaction_id tc) ∷ [];
      labels =
          (created_for_key, to_lower (get_identity params tc))
          ∷ (created_by_key, naavik_name)
          ∷ (created_for_env_key, env)
          ∷ (created_type_key, "throttle_filter")
          ∷ (created_for_traffic_env_key, get_env tc)
          ∷ [];
      resource_version =
          version_or (istio.get_envoy_filter cluster_id (throttle_name tc env version)) "";
      workload_selector = workload_labels;
      config_patches = patches;
    };
  }

  abbrev pub filter_with :
      String
      → TrafficConfig
      → Table String
      → String
      → String
      → Option (List ConfigPatch)
      → Option Filter
  filter_with cluster_id tc workload_labels env version none = none
  filter_with cluster_id tc workload_labels env version (some patches) =
      some (throttle_filter cluster_id tc workload_labels env version patches)

  -- The loop over the proxy versions. `none` is the panic on a nil quota group.
  unfoldable pub filters_for_versions :
      String → TrafficConfig → Table String → String → List String → Option (List Filter)
  unfolding create_config_patches
  filters_for_versions cluster_id tc workload_labels env [] = some []
  filters_for_versions cluster_id tc workload_labels env (version ∷ versions) =
      cons_some
        (filter_with cluster_id tc workload_labels env version (
          create_config_patches codec params caches.deployments caches.rollouts cluster_id
            (get_identity params tc) env version tc.quota_group))
        (filters_for_versions cluster_id tc workload_labels env versions)

  abbrev pub filters_if_labelled :
      String → TrafficConfig → String → Option (Table String) → Option (List Filter)
  filters_if_labelled cluster_id tc env none = some []
  filters_if_labelled cluster_id tc env (some workload_labels) =
      filters_for_versions cluster_id tc workload_labels env (items params.envoy_filter_versions)

  -- The loop over the environments
  unfoldable pub filters_for_envs : String → TrafficConfig → List String → Option (List Filter)
  unfolding filters_for_versions
  filters_for_envs cluster_id tc [] = some []
  filters_for_envs cluster_id tc (env ∷ envs) =
      both_lists
        (filters_if_labelled cluster_id tc env
          (get_workload_labels params caches cluster_id (get_identity params tc) env))
        (filters_for_envs cluster_id tc envs)

  -- `ApplyEnvoyFilters` on the new list and the listing: a nil listing panics.
  abbrev pub applied :
      String → Option (List Filter) → Option (List Filter) → Option (List (FilterCall Throttle))
  applied cluster_id none old_list = none
  applied cluster_id (some new_list) none = none
  applied cluster_id (some new_list) (some old_list) =
      some (apply_envoy_filters (istio.fails cluster_id) new_list old_list).0

  unfoldable pub create_rate_limiting_filters :
      String → TrafficConfig → Option (List (FilterCall Throttle))
  unfolding filters_for_envs apply_envoy_filters
  create_rate_limiting_filters cluster_id tc =
      applied cluster_id (filters_for_envs cluster_id tc tc.workload_env)
        (istio.list_envoy_filters cluster_id (rate_limiting_selector params tc))

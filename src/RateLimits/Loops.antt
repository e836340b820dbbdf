-- ===== src/RateLimits/Loops.antt =====
-- rate_limiting_handler.go: `createRoutePatches` and the lists of quotas that it ranges over.
use naavik.Common.{String, List, [], ◌∷◌, ◌++◌, Option, none, some, if◌then◌else◌}
use naavik.Common.Words.{ℤ}
use naavik.Options.{NaavikArgs, items}
use naavik.Resources.{Quota, QuotaGroup, TotalQuotaGroup, AppQuotaGroup}
use naavik.Cache.Deployments
use naavik.Cache.Rollouts
use naavik.RateLimits.{get_descriptor_config, get_rate_limit_config}
use naavik.RateLimits.Structs.{struct_value}
use naavik.RateLimits.Routes.{
  Codec, Limits, Patch, ConfigPatch, http_route, has_key, create_route_match, create_route_patch,
  create_filter_patch, get_inbound_ports,
}

module _ (codec : Codec) (params : NaavikArgs) where
  -- A quota whose period parses, appended to the two lists.
  abbrev pub on_period : String → String → Quota → Limits → Option ℤ → Limits
  on_period group app quota limits none = limits
  on_period group app quota limits (some period) = record {
    rate_limits =
        limits.rate_limits
        ++ struct_value (codec.struct_of_rate_limit (get_rate_limit_config params group app quota))
          ∷ [];
    descriptors =
        limits.descriptors
        ++ struct_value (codec.struct_of_descriptor (get_descriptor_config group app quota period))
          ∷ [];
  }

  unfoldable pub add_quotas : String → String → List Quota → Limits → Limits
  add_quotas group app [] limits = limits
  add_quotas group app (quota ∷ quotas) limits =
      add_quotas group app quotas
        (on_period group app quota limits (codec.parse_duration quota.time_period))

  -- The loop over the associated apps of a group
  unfoldable pub add_apps : String → List String → List Quota → Limits → Limits
  unfolding add_quotas
  add_apps group [] quotas limits = limits
  add_apps group (app ∷ apps) quotas limits =
      add_apps group apps quotas (add_quotas group app quotas limits)

  unfoldable pub add_total_quota_groups : String → List TotalQuotaGroup → Limits → Limits
  unfolding add_quotas has_key
  add_total_quota_groups env [] limits = limits
  add_total_quota_groups env (tcg ∷ groups) limits = add_total_quota_groups env groups (
      if has_key tcg.workload_env_selectors env
      then add_quotas tcg.name "" tcg.quotas limits
      else limits)

  unfoldable pub add_app_quota_groups : String → List AppQuotaGroup → Limits → Limits
  unfolding add_apps has_key
  add_app_quota_groups env [] limits = limits
  add_app_quota_groups env (aqg ∷ groups) limits = add_app_quota_groups env groups (
      if has_key aqg.workload_env_selectors env
      then add_apps aqg.name aqg.associated_apps aqg.quotas limits
      else limits)

  -- Both lists after the loops.
  unfoldable pub limits_of : String → QuotaGroup → Limits
  unfolding add_total_quota_groups add_app_quota_groups
  limits_of env group = add_app_quota_groups env group.app_quota_groups (
      add_total_quota_groups env group.total_quota_group
        (record { rate_limits = []; descriptors = [] }))

  abbrev pub patches_for_ports : Patch → List String → List ConfigPatch
  patches_for_ports patch [] = []
  patches_for_ports patch (inbound_port ∷ ports) =
      record {
        apply_to = http_route;
        object_match = create_route_match inbound_port;
        patch = patch;
      }
      ∷ patches_for_ports patch ports

  -- `none` is the panic on a nil quota group.
  unfoldable pub create_route_patches :
      Deployments.Cache
      → Rollouts.Cache
      → String
      → String
      → String
      → Option QuotaGroup
      → Option (List ConfigPatch)
  unfolding limits_of create_route_patch get_inbound_ports
  create_route_patches deployments rollouts cluster_id identity env none = none
  create_route_patches deployments rollouts cluster_id identity env (some group) =
      let limits = limits_of env group in
      some (
        patches_for_ports (create_route_patch codec limits.rate_limits limits.descriptors)
          (items (get_inbound_ports deployments rollouts cluster_id identity env)))

  abbrev pub after_filter_patch : String → Option (List ConfigPatch) → Option (List ConfigPatch)
  after_filter_patch proxy_version none = none
  after_filter_patch proxy_version (some patches) =
      some (create_filter_patch proxy_version ∷ patches)

  unfoldable pub create_config_patches :
      Deployments.Cache
      → Rollouts.Cache
      → String
      → String
      → String
      → String
      → Option QuotaGroup
      → Option (List ConfigPatch)
  unfolding create_route_patches create_filter_patch
  create_config_patches deployments rollouts cluster_id identity env proxy_version group =
      after_filter_patch proxy_version
        (create_route_patches deployments rollouts cluster_id identity env group)

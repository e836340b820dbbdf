-- ===== src/Tests/RateLimits.antt =====
-- Runs of the rate limits and of what a handler writes.
use naavik.Common.{
  ◌<◌, ◌^◌, String, true, false, List, [], ◌∷◌, none, some, ◌≡◌, ◌↔◌, refl, is_some, All, ◌++◌,
  ◌==◌, if◌then◌else◌,
}
use naavik.Common.Table
use naavik.Common.Table.{Table}
use naavik.Common.Types.{EventType}
use naavik.Common.Words.{pos}
use naavik.Options.{Compile, is_cluster_in_allowed_scope}
use naavik.Resources.{Quota, QuotaGroup, TrafficConfig, Workload}
use naavik.TrafficUtil.{get_identity, is_disabled}
use naavik.Cache.Clusters
use naavik.Cache.Identities
use naavik.Cache.Deployments
use naavik.EnvoyFilters.{FilterCall}
use naavik.EnvoyFilters.Laws.{run_calls, named}
use naavik.Handlers.{Caches, Outcome}
use naavik.Handlers.TrafficConfig.{config_deleted}
use naavik.VirtualService.Apply.{ApiCall}
use naavik.VirtualService.Targets.{all_deletions, targets}
use naavik.RateLimits.{get_path_regex, get_descriptor_config}
use naavik.RateLimits.Structs.{no_fields}
use naavik.RateLimits.Routes.{Codec}
use naavik.RateLimits.Loops.{limits_of}
use naavik.RateLimits.Create.{Throttle, Filter, Istio, filters_for_envs, rate_limiting_selector}
use naavik.RateLimits.Handle.{handle_rate_limiter}
use naavik.RateLimits.Reference.{
  Limit, quotas_of, rate_limit_values, descriptor_values, keys_of_actions, keys_of_entries,
  rate_limit_of, descriptor_of, limits_of-quotas,
}
use naavik.RateLimits.Clusters.{calls_over, deletions, handle_rate_limiter-deletes}
use naavik.RateLimits.Names.{selects, is_throttle_name, filters_for_envs-selected}
use naavik.RateLimits.Applied.{handle_rate_limiter-names}
use naavik.RateLimits.Values.{
  get_descriptor_key-injective, get_path_regex-starred, get_descriptor_config-bucket,
}
use naavik.Writes.{World, filter_writes, service_writes, writes_of_all}
use naavik.Writes.Deletion.{IsLive, config_deleted-writes}
use naavik.Tests.Data.{params, live, pay_meta, tc, no_caches, fresh_chan, cluster}

abbrev names : List String
names = "tcg" ∷ "reads" ∷ "web" ∷ []

get_descriptor_key-injective_example : names ≡ "tcg" ∷ "reads" ∷ "web" ∷ []
get_descriptor_key-injective_example =
    get_descriptor_key-injective names ("tcg" ∷ "reads" ∷ "web" ∷ []) refl refl refl refl refl

get_path_regex-starred_example : get_path_regex "/v1/*/a.*" ≡ "/v1/.*/a.*"
get_path_regex-starred_example = get_path_regex-starred "/v1/*/a.*"

abbrev quota : Quota
quota = record {
  name = "reads";
  time_period = "1s";
  max_amount = pos 4294967296;
  path = "/v1/*";
  methods = "GET" ∷ [];
  headers = [];
}

get_descriptor_config-bucket_example :
    let bucket = (get_descriptor_config "tcg" "" quota (pos 1000000000)).token_bucket in
    (bucket.tokens_per_fill ≡ bucket.max_tokens)
    × (bucket.max_tokens < 2 ^ 32)
    × ((pos bucket.max_tokens ≡ pos 4294967296) ↔ (false ≡ true))
get_descriptor_config-bucket_example = get_descriptor_config-bucket "tcg" "" quota (pos 1000000000)

-- Only one period parses.
abbrev pub codec : Codec
codec = record {
  parse_duration = λ s. if s == "1s" then some (pos 1000000000) else none;
  struct_of_descriptor = λ d. no_fields;
  struct_of_rate_limit = λ r. no_fields;
  struct_of_bucket = λ b. no_fields;
}

abbrev group : QuotaGroup
group = record {
  total_quota_group =
      record { name = "all"; workload_env_selectors = "qa" ∷ []; quotas = quota ∷ [] } ∷ [];
  app_quota_groups =
      record {
        name = "apps";
        workload_env_selectors = "qa" ∷ "prf" ∷ [];
        associated_apps = "web" ∷ [];
        quotas = quota ∷ [];
      }
      ∷ [];
}

limits_of-quotas_example :
    ((limits_of codec params "qa" group).rate_limits
      ≡ rate_limit_values codec params (quotas_of codec "qa" group))
    × ((limits_of codec params "qa" group).descriptors
        ≡ descriptor_values codec params (quotas_of codec "qa" group))
    × ((l : Limit)
        → keys_of_actions codec params (rate_limit_of codec params l).actions
          ≡ keys_of_entries codec params (descriptor_of codec params l).entries)
limits_of-quotas_example = limits_of-quotas codec params "qa" group

-- A configuration with limits, for one workload in one cluster.
abbrev pub limited : TrafficConfig
limited = record tc {
  workload_env = "qa" ∷ [];
  quota_group = some group;
  edge_service = some (record { routes = []; targets = none; target_groups = none });
}

abbrev labelled_pay : Workload
labelled_pay = record {
  meta = record pay_meta { labels = ("app", "pay") ∷ pay_meta.labels };
  template = pay_meta;
}

abbrev pub caches : Caches
caches = record no_caches {
  deployments = Deployments.add params [] "Cluster1" labelled_pay;
  identities = Identities.add_cluster_to_identity [] "Payments" "Cluster1";
}

abbrev old_filter : Filter
old_filter = record {
  name = "payments-throttle-qa-1.13";
  namespace = "istio-system";
  spec = record {
    annotations = [];
    labels = [];
    resource_version = "1";
    workload_selector = [];
    config_patches = [];
  };
}

abbrev pub istio : Istio
istio = record {
  list_envoy_filters = λ name selector. some (old_filter ∷ []);
  get_envoy_filter = λ name filter. none;
  fails = λ name call. some "refused";
}

abbrev matching : Compile
matching pattern = some (λ text. true)

abbrev registered : Clusters.Cache (Unit {0})
registered = Clusters.add_cluster [] cluster

abbrev pub world : World (Unit {0})
world = record {
  compile = matching;
  codec = codec;
  istio = istio;
  existing = λ name vs_name. none;
  registered = registered;
}

pub compiles : (name : String) → is_some (is_cluster_in_allowed_scope matching params name) ≡ true
unfolding is_cluster_in_allowed_scope
compiles name = refl

filters_for_envs-selected_example :
    (filters : List Filter) × (filters_for_envs codec istio params caches "cluster1" limited
        ("qa" ∷ [])
      ≡ some filters)
    × All (λ f. selects (rate_limiting_selector params limited) f.spec.labels ≡ true) filters
filters_for_envs-selected_example =
    filters_for_envs-selected codec istio params caches "cluster1" limited group refl

handle_rate_limiter-deletes_example :
    handle_rate_limiter matching codec istio params caches registered limited EventType.delete
    ≡ some (
        calls_over registered
          (λ name. deletions (old_filter ∷ []))
          (targets matching params registered ("cluster1" ∷ [])))
unfolding is_disabled Table.get is_cluster_in_allowed_scope Identities.get_clusters_for_identity
    Clusters.get_cluster Identities.add_cluster_to_identity Clusters.add_cluster Table.set
    naavik.Common.Text.to_lower get_identity naavik.Set.list_items naavik.Set.add naavik.Set.new_set
handle_rate_limiter-deletes_example =
    handle_rate_limiter-deletes matching codec istio params caches registered limited
      EventType.delete (λ name. old_filter ∷ []) compiles (λ name. refl) refl

handle_rate_limiter-names_example :
    (calls : (String → List (FilterCall Throttle))) × (handle_rate_limiter matching codec istio
        params caches registered limited EventType.add
      ≡ some (calls_over registered calls (targets matching params registered ("cluster1" ∷ []))))
    × ((name : String) (m : Table Filter) (filter : String)
        → is_some (Table.get m filter) ≡ named (old_filter ∷ []) filter
        → is_some (Table.get (run_calls m (calls name)) filter)
          ≡ is_throttle_name codec istio params caches name limited ("qa" ∷ []) filter)
unfolding is_disabled Table.get is_cluster_in_allowed_scope Identities.get_clusters_for_identity
    Clusters.get_cluster Identities.add_cluster_to_identity Clusters.add_cluster Table.set
    naavik.Common.Text.to_lower get_identity naavik.Set.list_items naavik.Set.add naavik.Set.new_set
handle_rate_limiter-names_example =
    handle_rate_limiter-names matching codec istio params caches registered limited EventType.add
      group (λ name. old_filter ∷ []) compiles (λ name. refl) refl refl

is_live : IsLive world live
unfolding naavik.Options.is_cache_warmed_up naavik.Options.is_feature_enabled
is_live = record { writable = refl; warm = refl; throttles = refl; services = refl }

config_deleted-writes_example :
    (outcome : Outcome) × (config_deleted live caches limited fresh_chan ≡ some outcome)
    × ((calls : List ApiCall) × (writes_of_all world live outcome.caches outcome.trail.calls
          ≡ some (
              filter_writes (
                calls_over registered
                  (λ name. deletions (old_filter ∷ []))
                  (targets matching params registered ("cluster1" ∷ [])))
              ++ service_writes calls))
        × (all_deletions false calls ≡ true))
unfolding is_cluster_in_allowed_scope Identities.get_clusters_for_identity is_disabled
    Clusters.get_cluster Table.get Clusters.add_cluster Identities.add_cluster_to_identity Table.set
    naavik.Common.Text.to_lower get_identity naavik.Set.list_items naavik.Set.add naavik.Set.new_set
config_deleted-writes_example =
    config_deleted-writes world live caches limited
      (record { routes = []; targets = none; target_groups = none }) fresh_chan
      (λ name. old_filter ∷ []) is_live refl refl compiles (λ name. refl)

-- ===== src/Options.antt =====
-- cmd/options: the program's settings (options.go) and their defaults (defaults.go).
-- The global `Params` is an argument; a nil slice is `none`. Counts and durations (nanoseconds)
-- are natural numbers.
pub mod Laws
use naavik.Common.{
  ℕ, ◌*◌, String, Bool, true, false, not, List, [], ◌∷◌, Option, none, some, ◌==◌, if◌then◌else◌,
  nat_eq, ltb,
}
use naavik.Common.Text.{to_lower, trim_space, join}
use naavik.Common.Types.{FeatureName, feature_text}

pub record NaavikArgs : Type 0 where
  pub log_level : String
  pub log_color : Bool
  pub argo_rollouts_enabled : Bool
  pub config_path : String
  pub workload_identity_key : String
  pub mesh_injection_enabled_key : String
  pub env_key : String
  pub resource_ignore_label : String
  pub secret_sync_label : String
  pub hostname_suffix : String
  pub enable_profiling : Bool
  pub profiler_endpoint : String
  pub config_resolver : String
  pub state_checker : String
  pub traffic_config_namespace : String
  pub traffic_config_identity_key : String
  pub allowed_cluster_scope : Option (List String)
  pub ignore_asset_aliases : Option (List String)
  pub envoy_filter_versions : Option (List String)
  pub deprecated_envoy_filter_versions : Option (List String)
  pub disabled_features : Option (List String)
  pub async_executor_max_go_routines : ℕ
  pub worker_concurrency : ℕ
  pub cache_refresh_interval : ℕ
  pub kube_config_path : String
  pub cluster_registries_namespace : String
  pub dependencies_namespace : String
  pub sync_namespace : String

-- Ranging over a nil slice visits nothing.
abbrev pub items {ℓ} : {A : Type ℓ} → Option (List A) → List A
items none = []
items (some l) = l

-- What `&NaavikArgs{}` holds: the zero value of each field.
abbrev pub zero_args : NaavikArgs
zero_args = record {
  log_level = "";
  log_color = false;
  argo_rollouts_enabled = false;
  config_path = "";
  workload_identity_key = "";
  mesh_injection_enabled_key = "";
  env_key = "";
  resource_ignore_label = "";
  secret_sync_label = "";
  hostname_suffix = "";
  enable_profiling = false;
  profiler_endpoint = "";
  config_resolver = "";
  state_checker = "";
  traffic_config_namespace = "";
  traffic_config_identity_key = "";
  allowed_cluster_scope = none;
  ignore_asset_aliases = none;
  envoy_filter_versions = none;
  deprecated_envoy_filter_versions = none;
  disabled_features = none;
  async_executor_max_go_routines = 0;
  worker_concurrency = 0;
  cache_refresh_interval = 0;
  kube_config_path = "";
  cluster_registries_namespace = "";
  dependencies_namespace = "";
  sync_namespace = "";
}

-- The constants and variables of defaults.go, under the fields that they are the defaults of.
abbrev pub defaults : NaavikArgs
defaults = record {
  log_level = "info";
  log_color = false;
  argo_rollouts_enabled = true;
  config_path = "/etc/admiral/config.yaml";
  workload_identity_key = "alpha.istio.io/identity";
  mesh_injection_enabled_key = "sidecar.istio.io/inject";
  env_key = "admiral.io/env";
  resource_ignore_label = "admiral.io/ignore";
  secret_sync_label = "admiral.io/sync";
  hostname_suffix = "mesh";
  enable_profiling = false;
  profiler_endpoint = "localhost:4040";
  config_resolver = "secret";
  state_checker = "none";
  traffic_config_namespace = "admiral";
  traffic_config_identity_key = "asset";
  allowed_cluster_scope = some (".*" ∷ []);
  ignore_asset_aliases = some [];
  envoy_filter_versions = some ("1.21" ∷ []);
  deprecated_envoy_filter_versions = some ("1.13" ∷ []);
  disabled_features = some ("" ∷ []);
  async_executor_max_go_routines = 20000;
  worker_concurrency = 1;
  cache_refresh_interval = 60 * 1000000000;
  kube_config_path = "";
  cluster_registries_namespace = "admiral";
  dependencies_namespace = "admiral";
  sync_namespace = "admiral-sync";
}

-- `getValueOrDefault` at its three types, and `getValueOrDefaultSlice`
abbrev pub text_or_default : String → String → String
text_or_default val def = if "" == val then def else val

abbrev pub bool_or_default : Bool → Bool → Bool
bool_or_default false def = def
bool_or_default true def = true

abbrev pub number_or_default : ℕ → ℕ → ℕ
number_or_default val def = if nat_eq 0 val then def else val

abbrev pub slice_or_default : Option (List String) → Option (List String) → Option (List String)
slice_or_default none def = def
slice_or_default (some val) def = some val

abbrev given_or_zero : Option NaavikArgs → NaavikArgs
given_or_zero none = zero_args
given_or_zero (some args) = args

fill : NaavikArgs → NaavikArgs
fill args = record {
  log_level = text_or_default args.log_level defaults.log_level;
  log_color = false;
  argo_rollouts_enabled = bool_or_default args.argo_rollouts_enabled defaults.argo_rollouts_enabled;
  config_path = text_or_default args.config_path defaults.config_path;
  workload_identity_key = text_or_default args.workload_identity_key defaults.workload_identity_key;
  mesh_injection_enabled_key =
      text_or_default args.mesh_injection_enabled_key defaults.mesh_injection_enabled_key;
  env_key = text_or_default args.env_key defaults.env_key;
  resource_ignore_label = text_or_default args.resource_ignore_label defaults.resource_ignore_label;
  secret_sync_label = text_or_default args.secret_sync_label defaults.secret_sync_label;
  hostname_suffix = text_or_default args.hostname_suffix defaults.hostname_suffix;
  enable_profiling = bool_or_default args.enable_profiling defaults.enable_profiling;
  profiler_endpoint = "";
  config_resolver = text_or_default args.config_resolver defaults.config_resolver;
  state_checker = text_or_default args.state_checker defaults.state_checker;
  traffic_config_namespace =
      text_or_default args.traffic_config_namespace defaults.traffic_config_namespace;
  traffic_config_identity_key =
      text_or_default args.traffic_config_identity_key defaults.traffic_config_identity_key;
  allowed_cluster_scope =
      slice_or_default args.allowed_cluster_scope defaults.allowed_cluster_scope;
  ignore_asset_aliases = slice_or_default args.ignore_asset_aliases defaults.ignore_asset_aliases;
  envoy_filter_versions =
      slice_or_default args.envoy_filter_versions defaults.envoy_filter_versions;
  deprecated_envoy_filter_versions =
      slice_or_default args.deprecated_envoy_filter_versions
        defaults.deprecated_envoy_filter_versions;
  disabled_features = slice_or_default args.disabled_features defaults.disabled_features;
  async_executor_max_go_routines =
      number_or_default args.async_executor_max_go_routines defaults.async_executor_max_go_routines;
  worker_concurrency = number_or_default args.worker_concurrency defaults.worker_concurrency;
  cache_refresh_interval =
      number_or_default args.cache_refresh_interval defaults.cache_refresh_interval;
  kube_config_path = text_or_default args.cluster_registries_namespace "";
  cluster_registries_namespace =
      text_or_default args.cluster_registries_namespace defaults.cluster_registries_namespace;
  dependencies_namespace =
      text_or_default args.dependencies_namespace defaults.dependencies_namespace;
  sync_namespace = text_or_default args.sync_namespace defaults.sync_namespace;
}

-- `InitializeNaavikArgs`: the value that `Params` takes
unfoldable pub initialize_naavik_args : Option NaavikArgs → NaavikArgs
unfolding fill
initialize_naavik_args args = fill (given_or_zero args)

-- `slices.Contains`
unfoldable pub slice_contains : List String → String → Bool
slice_contains [] k = false
slice_contains (x ∷ xs) k = if x == k then true else slice_contains xs k

lower_all : List String → List String
lower_all [] = []
lower_all (a ∷ assets) = to_lower a ∷ lower_all assets

unfoldable pub get_traffic_config_ignore_assets : NaavikArgs → List String
unfolding lower_all
get_traffic_config_ignore_assets params = lower_all (items params.ignore_asset_aliases)

unfoldable pub is_asset_ignored : NaavikArgs → String → Bool
unfolding get_traffic_config_ignore_assets slice_contains
is_asset_ignored params asset =
    slice_contains (get_traffic_config_ignore_assets params) (to_lower asset)

unfoldable pub is_feature_enabled : NaavikArgs → FeatureName → Bool
unfolding slice_contains
is_feature_enabled params feature =
    not (slice_contains (items params.disabled_features) (feature_text feature))

-- Go's `regexp`: the compiled form of a pattern is the set of texts that it matches; `none` is a
-- pattern that does not compile.
abbrev pub Compile : Type 0
Compile = String → Option (String → Bool)

scopes_match : Compile → List String → String → Option Bool
scopes_match compile [] cluster = some false
scopes_match compile (scope ∷ scopes) cluster =
    let rest = scopes_match compile scopes cluster in
    elim (compile (join ("(?i)" ∷ trim_space scope ∷ []) "")) [
      | none ↦ none
      | some matches ↦ if matches cluster then some true else rest
    ]

-- `none` is the panic on a pattern that does not compile.
unfoldable pub is_cluster_in_allowed_scope : Compile → NaavikArgs → String → Option Bool
unfolding scopes_match
is_cluster_in_allowed_scope compile params cluster =
    scopes_match compile (items params.allowed_cluster_scope) cluster

-- `IsCacheWarmedUp`, `elapsed` being the time since the start
unfoldable pub is_cache_warmed_up : NaavikArgs → ℕ → Bool
is_cache_warmed_up params elapsed = ltb params.cache_refresh_interval elapsed

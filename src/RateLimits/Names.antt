-- ===== src/RateLimits/Names.antt =====
-- Which filters a cluster holds after `createRateLimitingFilters`.
use naavik.Common.{
  String, Bool, true, false, ◌&&◌, ◌||◌, List, [], ◌∷◌, ◌++◌, Option, none, some, ◌≡◌, refl, ap,
  ◌∙◌, arith, ◌==◌, eq_refl, is_some, All, All-append,
}
use naavik.Common.Table
use naavik.Common.Table.{Table}
use naavik.Common.Text.{to_lower, to_lower_idem}
use naavik.Options.{NaavikArgs, items}
use naavik.Resources.{TrafficConfig, QuotaGroup}
use naavik.TrafficUtil.{get_identity, get_identity_lower_case, get_env}
use naavik.EnvoyFilters.{FilterCall, apply_envoy_filters}
use naavik.EnvoyFilters.Laws.{run_calls, named, found_or, apply_envoy_filters-exact}
use naavik.Handlers.{Caches}
use naavik.RateLimits.Routes.{Codec, ConfigPatch}
use naavik.RateLimits.Loops.{create_route_patches, create_config_patches}
use naavik.RateLimits.Create.{
  Throttle, Filter, Istio, get_name, rate_limiting_selector, get_workload_labels, throttle_name,
  throttle_filter, filters_for_versions, filters_if_labelled, filters_for_envs,
  create_rate_limiting_filters,
}

-- Whether labels have what a selector asks for.
abbrev pub selects : Table String → Table String → Bool
selects [] labels = true
selects ((k, v) ∷ selector) labels =
    (elim (Table.get labels k) [ none ↦ false | some w ↦ w == v ]) && selects selector labels

named-append :
    (l k : List Filter) (name : String) → named (l ++ k) name ≡ (named l name || named k name)
named-append [] k name = refl
named-append (f ∷ l) k name = ground (arith, named-append l k name)

found_or-is_some :
    (l : List Filter) (other : Option Filter) (name : String)
    → is_some (found_or other l name) ≡ (named l name || is_some other)
found_or-is_some [] other name = refl
found_or-is_some (f ∷ l) other name =
    ground (arith, found_or-is_some l other name, found_or-is_some l (some f) name)

module _ (codec : Codec) (istio : Istio) (params : NaavikArgs) (caches : Caches) where
  abbrev name_of : TrafficConfig → String → String → String
  name_of tc env version = throttle_name codec istio params caches tc env version

  abbrev pub is_version_name : TrafficConfig → String → List String → String → Bool
  is_version_name tc env [] name = false
  is_version_name tc env (version ∷ versions) name =
      name_of tc env version == name || is_version_name tc env versions name

  -- Whether a name is that of a throttle filter: of an environment with a workload in the cluster, for
  -- one of the configured proxy versions.
  abbrev pub is_throttle_name : String → TrafficConfig → List String → String → Bool
  is_throttle_name cluster_id tc [] name = false
  is_throttle_name cluster_id tc (env ∷ envs) name =
      (is_some (get_workload_labels params caches cluster_id (get_identity params tc) env)
        && is_version_name tc env (items params.envoy_filter_versions) name)
      || is_throttle_name cluster_id tc envs name

  name_lower :
      (tc : TrafficConfig) (env version : String)
      → to_lower (name_of tc env version) ≡ name_of tc env version
  unfolding get_name
  name_lower tc env version = to_lower_idem _

  patches-some :
      (cluster_id env version : String) (tc : TrafficConfig) (group : QuotaGroup)
      → tc.quota_group ≡ some group
      → (patches : List ConfigPatch) × (create_config_patches codec params caches.deployments
            caches.rollouts cluster_id
            (get_identity params tc)
            env
            version
            tc.quota_group
          ≡ some patches)
  unfolding create_config_patches create_route_patches
  patches-some cluster_id env version tc group e = rw e (_, refl)

  -- What a list of filters for a configuration is to be.
  record Requested (tc : TrafficConfig) (o : Option (List Filter)) (is_name : String → Bool)
      : Type 0 where
    pub filters : List Filter
    pub built : o ≡ some filters
    pub named_as : (name : String) → named filters name ≡ is_name name
    pub selected :
        All (λ f. selects (rate_limiting_selector params tc) f.spec.labels ≡ true) filters

  throttle-selected :
      (cluster_id env version : String) (tc : TrafficConfig) (labels : Table String)
      (patches : List ConfigPatch)
      → selects
          (rate_limiting_selector params tc)
          (throttle_filter codec istio params caches cluster_id tc labels env version
            patches).spec.labels
        ≡ true
  unfolding Table.get rate_limiting_selector get_identity_lower_case
  throttle-selected cluster_id env version tc labels patches =
      rw (eq_refl (to_lower (get_identity params tc)), eq_refl (get_env tc)) refl

  for_versions :
      (cluster_id env : String) (tc : TrafficConfig) (group : QuotaGroup) (labels : Table String)
      (versions : List String)
      → tc.quota_group ≡ some group
      → Requested tc
          (filters_for_versions codec istio params caches cluster_id tc labels env versions)
          (is_version_name tc env versions)
  unfolding filters_for_versions
  for_versions cluster_id env tc group labels [] e = record {
    filters = [];
    built = refl;
    named_as = λ name. refl;
    selected = tt;
  }
  for_versions cluster_id env tc group labels (version ∷ versions) e =
      let (patches, made) = patches-some cluster_id env version tc group e in
      let rest = for_versions cluster_id env tc group labels versions e in
      record {
        filters =
            throttle_filter codec istio params caches cluster_id tc labels env version patches
            ∷ rest.filters;
        built = rw (made, rest.built) refl;
        named_as = λ name. rw (name_lower tc env version, rest.named_as name) refl;
        selected = (throttle-selected cluster_id env version tc labels patches, rest.selected);
      }

  for_env :
      (cluster_id env : String) (tc : TrafficConfig) (group : QuotaGroup)
      (labels : Option (Table String))
      → tc.quota_group ≡ some group
      → Requested tc
          (filters_if_labelled codec istio params caches cluster_id tc env labels)
          (λ name.
            is_some labels && is_version_name tc env (items params.envoy_filter_versions) name)
  for_env cluster_id env tc group none e = record {
    filters = [];
    built = refl;
    named_as = λ name. refl;
    selected = tt;
  }
  for_env cluster_id env tc group (some labels) e =
      for_versions cluster_id env tc group labels (items params.envoy_filter_versions) e

  for_envs :
      (cluster_id : String) (tc : TrafficConfig) (group : QuotaGroup) (envs : List String)
      → tc.quota_group ≡ some group
      → Requested tc
          (filters_for_envs codec istio params caches cluster_id tc envs)
          (is_throttle_name cluster_id tc envs)
  unfolding filters_for_envs
  for_envs cluster_id tc group [] e = record {
    filters = [];
    built = refl;
    named_as = λ name. refl;
    selected = tt;
  }
  for_envs cluster_id tc group (env ∷ envs) e =
      let labels = get_workload_labels params caches cluster_id (get_identity params tc) env in
      let first = for_env cluster_id env tc group labels e in
      let rest = for_envs cluster_id tc group envs e in
      record {
        filters = first.filters ++ rest.filters;
        built = rw (first.built, rest.built) refl;
        named_as = λ name.
            named-append first.filters rest.filters name
            ∙ rw (first.named_as name, rest.named_as name) refl;
        selected = All-append _ first.filters rest.filters first.selected rest.selected;
      }

  -- Every filter that is requested for a configuration with a quota group has the labels that the
  -- listing of the same configuration's filters selects by, so that a later listing finds it.
  pub filters_for_envs-selected :
      (cluster_id : String) (tc : TrafficConfig) (group : QuotaGroup)
      → tc.quota_group ≡ some group
      → (filters : List Filter) × (filters_for_envs codec istio params caches cluster_id tc
            tc.workload_env
          ≡ some filters)
        × All (λ f. selects (rate_limiting_selector params tc) f.spec.labels ≡ true) filters
  filters_for_envs-selected cluster_id tc group e =
      let asked = for_envs cluster_id tc group tc.workload_env e in
      (asked.filters, asked.built, asked.selected)

  -- The names in one cluster, where the listing is complete for a name.
  pub create_rate_limiting_filters-names :
      (cluster_id : String) (tc : TrafficConfig) (group : QuotaGroup) (existing : List Filter)
      → tc.quota_group ≡ some group
      → istio.list_envoy_filters cluster_id (rate_limiting_selector params tc) ≡ some existing
      → (calls : List (FilterCall Throttle)) × (create_rate_limiting_filters codec istio params
            caches cluster_id tc
          ≡ some calls)
        × ((m : Table Filter) (name : String)
            → is_some (Table.get m name) ≡ named existing name
            → is_some (Table.get (run_calls m calls) name)
              ≡ is_throttle_name cluster_id tc tc.workload_env name)
  unfolding create_rate_limiting_filters
  create_rate_limiting_filters-names cluster_id tc group existing e lists =
      let asked = for_envs cluster_id tc group tc.workload_env e in
      (
        (apply_envoy_filters (istio.fails cluster_id) asked.filters existing).0,
        rw (asked.built, lists) refl,
        λ m name complete.
            ap is_some
              (apply_envoy_filters-exact (istio.fails cluster_id) asked.filters existing m name
                complete).0
            ∙ found_or-is_some asked.filters none name
            ∙ ground (arith, asked.named_as name),
      )

-- ===== src/RateLimits/Reference.antt =====
-- The lists of rate limits and descriptors of an environment, against an enumeration of its quotas.
use naavik.Common.{
  String, List, [], ◌∷◌, ◌++◌, append_assoc, append-nil, Option, none, some, ◌≡◌, refl, sym, ap,
  ◌∙◌, if◌then◌else◌, Bool-cases, Option-cases, inl, inr, ◌==◌,
}
use naavik.Common.Words.{ℤ}
use naavik.Options.{NaavikArgs}
use naavik.Resources.{Quota, QuotaGroup, TotalQuotaGroup, AppQuotaGroup}
use naavik.RateLimits.{
  LocalRateLimitDescriptor, RateLimit, DescriptorEntry, Action, get_descriptor_config,
  get_rate_limit_config, get_quota_descriptor_entry, get_associated_app_descriptor_entry,
  get_quota_action, get_associated_app_action,
}
use naavik.RateLimits.Structs.{Value, struct_value}
use naavik.RateLimits.Routes.{Codec, Limits, has_key}
use naavik.RateLimits.Loops.{
  on_period, add_quotas, add_apps, add_total_quota_groups, add_app_quota_groups, limits_of,
}

-- A quota of a group, for an app or for every one, with its period.
pub record Limit : Type 0 where
  pub group : String
  pub app : String
  pub quota : Quota
  pub period : ℤ

module _ (codec : Codec) where
  abbrev parsed : String → String → Quota → Option ℤ → List Limit
  parsed group app quota none = []
  parsed group app quota (some period) =
      record { group = group; app = app; quota = quota; period = period } ∷ []

  abbrev pub of_quotas : String → String → List Quota → List Limit
  of_quotas group app [] = []
  of_quotas group app (quota ∷ quotas) =
      parsed group app quota (codec.parse_duration quota.time_period) ++ of_quotas group app quotas

  abbrev pub of_apps : String → List String → List Quota → List Limit
  of_apps group [] quotas = []
  of_apps group (app ∷ apps) quotas = of_quotas group app quotas ++ of_apps group apps quotas

  abbrev pub of_total : String → List TotalQuotaGroup → List Limit
  of_total env [] = []
  of_total env (tcg ∷ groups) =
      (if has_key tcg.workload_env_selectors env then of_quotas tcg.name "" tcg.quotas else [])
      ++ of_total env groups

  abbrev pub of_app_groups : String → List AppQuotaGroup → List Limit
  of_app_groups env [] = []
  of_app_groups env (aqg ∷ groups) =
      (if has_key aqg.workload_env_selectors env
        then of_apps aqg.name aqg.associated_apps aqg.quotas
        else [])
      ++ of_app_groups env groups

  -- The quotas whose period parses, of the groups that select the environment: those for every app
  -- first, and then each app's.
  abbrev pub quotas_of : String → QuotaGroup → List Limit
  quotas_of env group =
      of_total env group.total_quota_group ++ of_app_groups env group.app_quota_groups

module _ (codec : Codec) (params : NaavikArgs) where
  abbrev pub descriptor_of : Limit → LocalRateLimitDescriptor
  descriptor_of l = get_descriptor_config l.group l.app l.quota l.period

  abbrev pub rate_limit_of : Limit → RateLimit
  rate_limit_of l = get_rate_limit_config params l.group l.app l.quota

  abbrev pub descriptor_values : List Limit → List Value
  descriptor_values [] = []
  descriptor_values (l ∷ limits) =
      struct_value (codec.struct_of_descriptor (descriptor_of l)) ∷ descriptor_values limits

  abbrev pub rate_limit_values : List Limit → List Value
  rate_limit_values [] = []
  rate_limit_values (l ∷ limits) =
      struct_value (codec.struct_of_rate_limit (rate_limit_of l)) ∷ rate_limit_values limits

  -- Two lists with the values of some limits appended.
  abbrev extended : Limits → List Limit → Limits
  extended limits l = record {
    rate_limits = limits.rate_limits ++ rate_limit_values l;
    descriptors = limits.descriptors ++ descriptor_values l;
  }

  rate_limit_values-append :
      (l k : List Limit) → rate_limit_values (l ++ k) ≡ rate_limit_values l ++ rate_limit_values k
  rate_limit_values-append [] k = refl
  rate_limit_values-append (x ∷ l) k =
      ap (λ t. struct_value (codec.struct_of_rate_limit (rate_limit_of x)) ∷ t)
        (rate_limit_values-append l k)

  descriptor_values-append :
      (l k : List Limit) → descriptor_values (l ++ k) ≡ descriptor_values l ++ descriptor_values k
  descriptor_values-append [] k = refl
  descriptor_values-append (x ∷ l) k =
      ap (λ t. struct_value (codec.struct_of_descriptor (descriptor_of x)) ∷ t)
        (descriptor_values-append l k)

  extended-append :
      (limits : Limits) (l k : List Limit)
      → extended (extended limits l) k ≡ extended limits (l ++ k)
  extended-append limits l k =
      rw (rate_limit_values-append l k, descriptor_values-append l k, append_assoc, append_assoc)
        refl

  extended-nil : (limits : Limits) → extended limits [] ≡ limits
  extended-nil limits = rw (append-nil limits.rate_limits, append-nil limits.descriptors) refl

  add_quotas-extended :
      (group app : String) (quotas : List Quota) (limits : Limits)
      → add_quotas codec params group app quotas limits
        ≡ extended limits (of_quotas codec group app quotas)
  unfolding add_quotas
  add_quotas-extended group app [] limits = sym (extended-nil limits)
  add_quotas-extended group app (quota ∷ quotas) limits =
      elim (Option-cases (codec.parse_duration quota.time_period)) [
        | inl bad ↦ rw bad (add_quotas-extended group app quotas limits)
        | inr (period, good) ↦ rw good (
            add_quotas-extended group app quotas
              (on_period codec params group app quota limits (some period))
            ∙ extended-append limits
                (record { group = group; app = app; quota = quota; period = period } ∷ [])
                (of_quotas codec group app quotas))
      ]

  add_apps-extended :
      (group : String) (apps : List String) (quotas : List Quota) (limits : Limits)
      → add_apps codec params group apps quotas limits
        ≡ extended limits (of_apps codec group apps quotas)
  unfolding add_apps
  add_apps-extended group [] quotas limits = sym (extended-nil limits)
  add_apps-extended group (app ∷ apps) quotas limits =
      add_apps-extended group apps quotas (add_quotas codec params group app quotas limits)
      ∙ rw (add_quotas-extended group app quotas limits) (
          extended-append limits (of_quotas codec group app quotas)
            (of_apps codec group apps quotas))

  add_total-extended :
      (env : String) (groups : List TotalQuotaGroup) (limits : Limits)
      → add_total_quota_groups codec params env groups limits
        ≡ extended limits (of_total codec env groups)
  unfolding add_total_quota_groups
  add_total-extended env [] limits = sym (extended-nil limits)
  add_total-extended env (tcg ∷ groups) limits =
      elim (Bool-cases (has_key tcg.workload_env_selectors env)) [
        | inr out ↦ rw out (add_total-extended env groups limits)
        | inl within ↦ rw within (
            add_total-extended env groups (add_quotas codec params tcg.name "" tcg.quotas limits)
            ∙ rw (add_quotas-extended tcg.name "" tcg.quotas limits) (
                extended-append limits (of_quotas codec tcg.name "" tcg.quotas)
                  (of_total codec env groups)))
      ]

  add_app_groups-extended :
      (env : String) (groups : List AppQuotaGroup) (limits : Limits)
      → add_app_quota_groups codec params env groups limits
        ≡ extended limits (of_app_groups codec env groups)
  unfolding add_app_quota_groups
  add_app_groups-extended env [] limits = sym (extended-nil limits)
  add_app_groups-extended env (aqg ∷ groups) limits =
      elim (Bool-cases (has_key aqg.workload_env_selectors env)) [
        | inr out ↦ rw out (add_app_groups-extended env groups limits)
        | inl within ↦ rw within (
            add_app_groups-extended env groups
              (add_apps codec params aqg.name aqg.associated_apps aqg.quotas limits)
            ∙ rw (add_apps-extended aqg.name aqg.associated_apps aqg.quotas limits) (
                extended-append limits (of_apps codec aqg.name aqg.associated_apps aqg.quotas)
                  (of_app_groups codec env groups)))
      ]

  abbrev pub keys_of_entries : List DescriptorEntry → List (String × String)
  keys_of_entries [] = []
  keys_of_entries (e ∷ entries) = (e.key, e.value) ∷ keys_of_entries entries

  abbrev pub keys_of_actions : List Action → List (String × String)
  keys_of_actions [] = []
  keys_of_actions (a ∷ actions) = (a.descriptor_key, a.descriptor_value) ∷ keys_of_actions actions

  keys_agree :
      (l : Limit)
      → keys_of_actions (rate_limit_of l).actions ≡ keys_of_entries (descriptor_of l).entries
  unfolding get_rate_limit_config get_descriptor_config get_quota_descriptor_entry
      get_associated_app_descriptor_entry get_quota_action get_associated_app_action
  keys_agree l = elim (Bool-cases (l.app == "")) [
    | inl bare ↦ rw bare refl
    | inr named ↦ rw named refl
  ]

  -- The loops of `createRoutePatches` put into its two lists, one for one and in order, the
  -- descriptor and the rate limit of each quota whose period parses, of the groups that select the
  -- environment and of no others; and the two of a quota have the same keys and values, in order.
  pub limits_of-quotas :
      (env : String) (group : QuotaGroup)
      → ((limits_of codec params env group).rate_limits
          ≡ rate_limit_values (quotas_of codec env group))
        × ((limits_of codec params env group).descriptors
            ≡ descriptor_values (quotas_of codec env group))
        × ((l : Limit)
            → keys_of_actions (rate_limit_of l).actions ≡ keys_of_entries (descriptor_of l).entries)
  unfolding limits_of
  limits_of-quotas env group =
      let empty : Limits = record { rate_limits = []; descriptors = [] } in
      let total = add_total-extended env group.total_quota_group empty in
      let both =
        add_app_groups-extended env group.app_quota_groups
          (add_total_quota_groups codec params env group.total_quota_group empty)
        ∙ ap (λ t. extended t (of_app_groups codec env group.app_quota_groups)) total
        ∙ extended-append empty (of_total codec env group.total_quota_group)
            (of_app_groups codec env group.app_quota_groups) in
      (ap (λ t. t.rate_limits) both, ap (λ t. t.descriptors) both, keys_agree)

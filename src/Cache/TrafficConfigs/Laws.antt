-- ===== src/Cache/TrafficConfigs/Laws.antt =====
-- What the traffic configuration cache promises to its readers.
use naavik.Cache.TrafficConfigs.Valid.{EntryOf, IsValid, with_config-EntryOf, old_or_new-EntryOf}
use mathlib.Core.Path.{subst}
use naavik.Common.{
  sym, ℕ, ◌+◌, String, not, none, some, ◌≡◌, refl, ◌&&◌, arith, ◌==◌, eq_iff, if◌then◌else◌,
  Option-cases, inl, inr, length,
}
use naavik.Common.Table
use naavik.Common.Table.{Table, get-set, get-delete}
use naavik.Common.Table.Laws.{Entries-get, IsDistinct, length-delete, sum_values-set}
use naavik.Common.Text.{to_lower}
use naavik.Options.{NaavikArgs}
use naavik.Resources.{TrafficConfig}
use naavik.Cache.TrafficConfigs.{
  Cache, TrafficConfigEntry, get, config_in, identity_of, env_of, entry_or_new, with_config,
  store_entry, same_name, without_config, delete_at, add_traffic_config_to_cache,
  delete_traffic_config_from_cache, get_total_traffic_configs,
}

get-store_entry :
    (c : Cache) (k k' : String) (entry : TrafficConfigEntry)
    → EntryOf k entry
    → Table.get (store_entry c entry) k' ≡ (if k == k' then some entry else Table.get c k')
unfolding store_entry
get-store_entry c k k' entry h =
    subst
      (λ j. Table.get (Table.set c j entry) k' ≡ (if k == k' then some entry else Table.get c k'))
      (sym h.named) (get-set c k k' entry)

get-with_config :
    (params : NaavikArgs) (entry : TrafficConfigEntry) (tc : TrafficConfig) (env : String)
    → Table.get (with_config params entry tc).env_traffic_config env
      ≡ (if env_of tc == env then some tc else Table.get entry.env_traffic_config env)
unfolding with_config
get-with_config params entry tc env = get-set entry.env_traffic_config (env_of tc) env tc

config_in-entry_or_new :
    (c : Cache) (k env : String)
    → Table.get (entry_or_new (Table.get c k) k).env_traffic_config env
      ≡ config_in (Table.get c k) env
unfolding Table.get
config_in-entry_or_new c k env = elim (Option-cases (Table.get c k)) [
  | inl e ↦ rw e refl
  | inr (entry, e) ↦ rw e refl
]

-- In a cache of the right shape, `Get` after `AddTrafficConfigToCache` returns the added configuration at
-- its identity and environment, in any case, and every other read is as before; a configuration
-- without an environment changes no read.
pub get-add_traffic_config_to_cache :
    (params : NaavikArgs) (c : Cache) (tc : TrafficConfig) (id env : String)
    → IsValid c
    → get (add_traffic_config_to_cache params c tc) id env ≡ (
        if not (env_of tc == "")
          && identity_of params tc == to_lower id
          && env_of tc == to_lower env
        then some tc
        else get c id env)
unfolding get add_traffic_config_to_cache
get-add_traffic_config_to_cache params c tc id env v =
    let k = identity_of params tc in
    let entry = entry_or_new (Table.get c k) k in
    let h = with_config-EntryOf params k entry tc (old_or_new-EntryOf c k v) in
    ground (
      arith,
      eq_iff k (to_lower id),
      get-store_entry c k (to_lower id) (with_config params entry tc) h,
      get-with_config params entry tc (to_lower env),
      config_in-entry_or_new c k (to_lower env),
    )

get-without_config :
    (entry : TrafficConfigEntry) (tc : TrafficConfig) (env : String)
    → Table.get (without_config entry tc).env_traffic_config env ≡ (
        if env_of tc == env && same_name (Table.get entry.env_traffic_config env) tc
        then none
        else Table.get entry.env_traffic_config env)
unfolding without_config
get-without_config entry tc env =
    ground (arith, eq_iff (env_of tc) env, get-delete entry.env_traffic_config (env_of tc) env)

config_in-delete_at :
    (c : Cache) (k k' env : String) (tc : TrafficConfig)
    → config_in (Table.get (delete_at c k tc) k') env ≡ (
        if k == k' && env_of tc == env && same_name (config_in (Table.get c k') env) tc
        then none
        else config_in (Table.get c k') env)
unfolding delete_at
config_in-delete_at c k k' env tc = elim (Option-cases (Table.get c k)) [
  | inl e ↦ rw (e, delete_at) (ground (arith, eq_iff k k'))
  | inr (entry, e) ↦
      rw (e, delete_at, get-set) (ground (arith, eq_iff k k', get-without_config entry tc env))
]

-- A `DeleteTrafficConfigFromCache` removes the configuration at the identity and environment, in any
-- case, if there is one by the same name; every other read is as before.
pub get-delete_traffic_config_from_cache :
    (params : NaavikArgs) (c : Cache) (tc : TrafficConfig) (id env : String)
    → get (delete_traffic_config_from_cache params c tc) id env ≡ (
        if not (env_of tc == "")
          && identity_of params tc == to_lower id
          && env_of tc == to_lower env
          && same_name (get c id env) tc
        then none
        else get c id env)
unfolding get delete_traffic_config_from_cache
get-delete_traffic_config_from_cache params c tc id env =
    ground (arith, config_in-delete_at c (identity_of params tc) (to_lower id) (to_lower env) tc)

length-without_config :
    (entry : TrafficConfigEntry) (tc : TrafficConfig)
    → IsDistinct entry.env_traffic_config
    → length (without_config entry tc).env_traffic_config
        + (if same_name (Table.get entry.env_traffic_config (env_of tc)) tc then 1 else 0)
      ≡ length entry.env_traffic_config
unfolding without_config
length-without_config entry tc h =
    ground (arith, length-delete entry.env_traffic_config (env_of tc) h)

abbrev count : TrafficConfigEntry → ℕ
count entry = length entry.env_traffic_config

-- In a cache of the right shape, `GetTotalTrafficConfigs` counts one less after
-- A `DeleteTrafficConfigFromCache` exactly when a configuration by the same name was cached at the
-- identity and the environment, which is not empty.
pub get_total_traffic_configs-delete :
    (params : NaavikArgs) (c : Cache) (tc : TrafficConfig)
    → IsValid c
    → get_total_traffic_configs (delete_traffic_config_from_cache params c tc)
        + (if not (env_of tc == "")
              && same_name (config_in (Table.get c (identity_of params tc)) (env_of tc)) tc
            then 1
            else 0)
      ≡ get_total_traffic_configs c
unfolding get_total_traffic_configs delete_traffic_config_from_cache
get_total_traffic_configs-delete params c tc v =
    let k = identity_of params tc in
    elim (Option-cases (Table.get c k)) [
      | inl e ↦ rw (e, delete_at) (ground arith)
      | inr (entry, e) ↦
          let shape = Entries-get EntryOf c k v.entries e in
          rw (e, delete_at)
            (ground (
              arith,
              e,
              length-without_config entry tc shape.distinct,
              sum_values-set count c k (without_config entry tc),
            ))
    ]

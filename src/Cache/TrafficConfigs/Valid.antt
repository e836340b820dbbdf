-- ===== src/Cache/TrafficConfigs/Valid.antt =====
-- The shape of the traffic configuration cache.
use mathlib.Core.Path.{subst}
use naavik.Common.{
  sym, String, none, ◌≡◌, refl, arith, ◌==◌, Bool-cases, Option-cases, inl, inr, is_some,
}
use naavik.Common.Table
use naavik.Common.Table.{Table, get-set, get-delete}
use naavik.Common.Table.Laws.{
  Entries, Entries-get, Entries-set, IsDistinct, set-IsDistinct, delete-IsDistinct,
}
use naavik.Options.{NaavikArgs}
use naavik.Resources.{TrafficConfig}
use naavik.Cache.TrafficConfigs.{
  Cache, TrafficConfigEntry, identity_of, env_of, entry_or_new, with_config, store_entry, same_name,
  without_config, delete_at, add_traffic_config_to_cache, delete_traffic_config_from_cache,
  get_routes_from_edge_service,
}

-- The shape of an entry: keyed by its own name, each environment once, and routes cached for
-- exactly the environments that have a configuration.
pub record EntryOf (k : String) (entry : TrafficConfigEntry) : Type 0 where
  pub named : entry.identity ≡ k
  pub distinct : IsDistinct entry.env_traffic_config
  pub routed :
      (env : String)
      → is_some (Table.get entry.env_service_routes_config env)
        ≡ is_some (Table.get entry.env_traffic_config env)

pub record IsValid (c : Cache) : Type 0 where
  pub distinct : IsDistinct c
  pub entries : Entries EntryOf c

new-EntryOf : (k : String) → EntryOf k (entry_or_new none k)
unfolding Table.get
new-EntryOf k = record { named = refl; distinct = tt; routed = λ env. refl }

pub old_or_new-EntryOf :
    (c : Cache) (k : String) → IsValid c → EntryOf k (entry_or_new (Table.get c k) k)
old_or_new-EntryOf c k v = elim (Option-cases (Table.get c k)) [
  | inl e ↦ rw e (new-EntryOf k)
  | inr (entry, e) ↦ rw e (Entries-get EntryOf c k v.entries e)
]

pub with_config-EntryOf :
    (params : NaavikArgs) (k : String) (entry : TrafficConfigEntry) (tc : TrafficConfig)
    → EntryOf k entry
    → EntryOf k (with_config params entry tc)
unfolding with_config
with_config-EntryOf params k entry tc h = record {
  named = h.named;
  distinct = set-IsDistinct entry.env_traffic_config (env_of tc) tc h.distinct;
  routed = λ env. ground (
    arith,
    h.routed env,
    get-set entry.env_traffic_config (env_of tc) env tc,
    get-set entry.env_service_routes_config (env_of tc) env
        (get_routes_from_edge_service params tc),
  );
}

without_config-EntryOf :
    (k : String) (entry : TrafficConfigEntry) (tc : TrafficConfig)
    → EntryOf k entry
    → EntryOf k (without_config entry tc)
unfolding without_config
without_config-EntryOf k entry tc h =
    elim (Bool-cases (same_name (Table.get entry.env_traffic_config (env_of tc)) tc)) [
      | inl e ↦ rw e (record {
        named = h.named;
        distinct = delete-IsDistinct entry.env_traffic_config (env_of tc) h.distinct;
        routed = λ env. ground (
          arith,
          h.routed env,
          get-delete entry.env_traffic_config (env_of tc) env,
          get-delete entry.env_service_routes_config (env_of tc) env,
        );
      })
      | inr e ↦ rw e h
    ]

store-IsValid :
    (c : Cache) (k : String) (entry : TrafficConfigEntry)
    → EntryOf k entry
    → IsValid c
    → IsValid (Table.set c k entry)
store-IsValid c k entry h v = record {
  distinct = set-IsDistinct c k entry v.distinct;
  entries = Entries-set EntryOf c k entry h v.entries;
}

store_entry-IsValid :
    (c : Cache) (k : String) (entry : TrafficConfigEntry)
    → EntryOf k entry
    → IsValid c
    → IsValid (store_entry c entry)
unfolding store_entry
store_entry-IsValid c k entry h v =
    subst (λ j. IsValid (Table.set c j entry)) (sym h.named) (store-IsValid c k entry h v)

-- `AddTrafficConfigToCache` keeps the shape of the cache: every entry under the identity that it
-- names, every environment once, and routes for exactly the environments with a configuration.
pub add_traffic_config_to_cache-IsValid :
    (params : NaavikArgs) (c : Cache) (tc : TrafficConfig)
    → IsValid c
    → IsValid (add_traffic_config_to_cache params c tc)
unfolding add_traffic_config_to_cache
add_traffic_config_to_cache-IsValid params c tc v = elim (Bool-cases (env_of tc == "")) [
  | inl e ↦ rw e v
  | inr e ↦
      let k = identity_of params tc in
      let h =
        with_config-EntryOf params k (entry_or_new (Table.get c k) k) tc
          (old_or_new-EntryOf c k v) in
      rw e (store_entry-IsValid c k _ h v)
]

-- A `DeleteTrafficConfigFromCache` keeps the shape of the cache: every entry under the identity that it
-- names, every environment once, and routes for exactly the environments with a configuration.
pub delete_traffic_config_from_cache-IsValid :
    (params : NaavikArgs) (c : Cache) (tc : TrafficConfig)
    → IsValid c
    → IsValid (delete_traffic_config_from_cache params c tc)
unfolding delete_traffic_config_from_cache
delete_traffic_config_from_cache-IsValid params c tc v = elim (Bool-cases (env_of tc == "")) [
  | inl e ↦ rw e v
  | inr e ↦ rw e (elim (Option-cases (Table.get c (identity_of params tc))) [
    | inl z ↦ rw (delete_at, z) v
    | inr (entry, z) ↦
        rw (delete_at, z)
          (store-IsValid c (identity_of params tc) (without_config entry tc)
            (without_config-EntryOf (identity_of params tc) entry tc
              (Entries-get EntryOf c (identity_of params tc) v.entries z))
            v)
  ])
]

-- ===== src/Cache/TrafficConfigs.antt =====
-- internal/cache/trafficconfig_cache.go: the traffic configurations of each identity by environment,
-- with the routes derived from them (internal/types/trafficconfig/route_config.go).
-- The copies that readers get are equal to what is cached, so `Copy` and `DeepCopy` are the identity.
pub mod Valid
pub mod Laws
use naavik.Common.{
  ℕ, String, Bool, List, [], ◌∷◌, Option, none, some, ◌==◌, is_empty, length, if◌then◌else◌,
}
use naavik.Common.Table
use naavik.Common.Table.{Table}
use naavik.Common.Text.{to_lower}
use naavik.Options.{NaavikArgs}
use naavik.Resources.{Route, TrafficConfig}
use naavik.TrafficUtil.{get_identity, get_env, get_revision}

pub record ServiceRouteConfig : Type 0 where
  pub workload_env_revision : Table String
  pub service_asset_alias : String
  pub routes : List Route

pub record TrafficConfigEntry : Type 0 where
  pub identity : String
  pub env_traffic_config : Table TrafficConfig
  pub env_service_routes_config : Table ServiceRouteConfig

abbrev pub Cache : Type 0
Cache = Table TrafficConfigEntry

unfoldable pub get_traffic_config_entry : Cache → String → Option TrafficConfigEntry
get_traffic_config_entry c identity = Table.get c (to_lower identity)

abbrev pub config_in : Option TrafficConfigEntry → String → Option TrafficConfig
config_in none env = none
config_in (some entry) env = Table.get entry.env_traffic_config env

unfoldable pub get : Cache → String → String → Option TrafficConfig
get c identity env = config_in (Table.get c (to_lower identity)) (to_lower env)

-- A route goes along where it selects an environment; of its fields, four do.
route_items : List Route → List Route
route_items [] = []
route_items (route ∷ routes) =
    if is_empty route.workload_env_selectors
    then route_items routes
    else record {
      name = route.name;
      inbound = route.inbound;
      outbound = route.outbound;
      timeout = 0;
      workload_env_selectors = route.workload_env_selectors;
      config = none;
    }
      ∷ route_items routes

revisions : Table String → List String → String → Table String
revisions m [] revision = m
revisions m (env ∷ envs) revision = revisions (Table.set m (to_lower env) revision) envs revision

unfoldable pub get_routes_from_edge_service : NaavikArgs → TrafficConfig → ServiceRouteConfig
unfolding route_items revisions
get_routes_from_edge_service params tc = elim tc.edge_service [
  | none ↦ record { workload_env_revision = []; service_asset_alias = ""; routes = [] }
  | some edge_service ↦ record {
    workload_env_revision = revisions [] tc.workload_env (get_revision tc);
    service_asset_alias = get_identity params tc;
    routes = route_items edge_service.routes;
  }
]

abbrev pub identity_of : NaavikArgs → TrafficConfig → String
identity_of params tc = to_lower (get_identity params tc)

abbrev pub env_of : TrafficConfig → String
env_of tc = to_lower (get_env tc)

-- The entry of an identity, or a new one.
abbrev pub entry_or_new : Option TrafficConfigEntry → String → TrafficConfigEntry
entry_or_new none identity = record {
  identity = identity;
  env_traffic_config = [];
  env_service_routes_config = [];
}
entry_or_new (some entry) identity = entry

unfoldable pub with_config : NaavikArgs → TrafficConfigEntry → TrafficConfig → TrafficConfigEntry
with_config params entry tc = record entry {
  env_traffic_config = Table.set entry.env_traffic_config (env_of tc) tc;
  env_service_routes_config =
      Table.set entry.env_service_routes_config (env_of tc)
        (get_routes_from_edge_service params tc);
}

-- `trafficConfigCache.cache[tce.Identity] = tce`: the key is the name in the entry.
unfoldable pub store_entry : Cache → TrafficConfigEntry → Cache
store_entry c entry = Table.set c entry.identity entry

unfoldable pub add_traffic_config_to_cache : NaavikArgs → Cache → TrafficConfig → Cache
unfolding with_config store_entry
add_traffic_config_to_cache params c tc =
    if env_of tc == ""
    then c
    else store_entry c (
        with_config params
          (entry_or_new (Table.get c (identity_of params tc)) (identity_of params tc)) tc)

abbrev pub same_name : Option TrafficConfig → TrafficConfig → Bool
same_name none tc = Bool.false
same_name (some cached) tc = tc.meta.name == cached.meta.name

without_config : TrafficConfigEntry → TrafficConfig → TrafficConfigEntry
without_config entry tc =
    if same_name (Table.get entry.env_traffic_config (env_of tc)) tc
    then record entry {
      env_traffic_config = Table.delete entry.env_traffic_config (env_of tc);
      env_service_routes_config = Table.delete entry.env_service_routes_config (env_of tc);
    }
    else entry

delete_at : Cache → String → TrafficConfig → Cache
unfolding without_config
delete_at c identity tc = elim (Table.get c identity) [
  | none ↦ c
  | some entry ↦ Table.set c identity (without_config entry tc)
]

unfoldable pub delete_traffic_config_from_cache : NaavikArgs → Cache → TrafficConfig → Cache
unfolding delete_at
delete_traffic_config_from_cache params c tc =
    if env_of tc == "" then c else delete_at c (identity_of params tc) tc

unfoldable pub get_total_traffic_configs : Cache → ℕ
get_total_traffic_configs c = Table.sum_values (λ entry. length entry.env_traffic_config) c

unfoldable pub reset : Cache → Cache
reset c = []

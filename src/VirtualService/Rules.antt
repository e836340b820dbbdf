-- ===== src/VirtualService/Rules.antt =====
-- The HTTP routes that virtual_service.go builds. A weight is the 32 bits of an `int32`.
use naavik.Common.{
  ℕ, ◌+◌, ◌*◌, ◌/◌, ◌%◌, ◌^◌, String, List, [], ◌∷◌, ◌++◌, Option, none, some, ◌==◌, ltb, is_empty,
  if◌then◌else◌,
}
use naavik.Common.Table.{Table}
use naavik.Common.Text.{to_lower, join}
use naavik.Common.Types.{get_host}
use naavik.Options.{NaavikArgs}
use naavik.Resources.{Route, EdgeService, TrafficConfig}
use naavik.TrafficUtil.{get_identity_lower_case}

-- `durationpb.Duration`; nil is `none`. A timeout is not negative, and below the range in which
-- `AsDuration` saturates.
pub record Duration : Type 0 where
  pub seconds : ℕ
  pub nanos : ℕ

abbrev pub get_seconds : Option Duration → ℕ
get_seconds none = 0
get_seconds (some d) = d.seconds

abbrev pub nanoseconds : Option Duration → ℕ
nanoseconds none = 0
nanoseconds (some d) = d.seconds * 1000000000 + d.nanos

pub record EndpointWeight : Type 0 where
  pub endpoint : String
  pub weight : ℕ

pub record RouteTargetInfo : Type 0 where
  pub target_group_selector : String
  pub mesh_endpoint : String

pub record RouteDetails : Type 0 where
  pub route_name : String
  pub inbound : String
  pub outbound : String
  pub config_details : List RouteTargetInfo
  pub timeout : Option Duration
  pub service_dial_details : List EndpointWeight
  pub app_dialing_details : Table (List EndpointWeight)

-- `HTTPMatchRequest`: the prefix of the authority, if any, and of the URI
pub record HttpMatch : Type 0 where
  pub authority : Option String
  pub uri : String

pub record HttpDestination : Type 0 where
  pub host : String
  pub weight : ℕ

pub record HttpRoute : Type 0 where
  pub name : String
  pub matches : List HttpMatch
  pub route : List HttpDestination
  pub rewrite : Option String
  pub timeout : Option Duration

-- From milliseconds, which are not negative. `AsDuration` is exact below 2 ^ 63 nanoseconds, some 292
-- years.
unfoldable pub get_route_timeout : Route → Option Duration
get_route_timeout route =
    some (record { seconds = route.timeout / 1000; nanos = route.timeout % 1000 * 1000 * 1000 })

unfoldable pub get_final_route_timeout : Option Duration → Option Duration
get_final_route_timeout timeout = if ltb 1000000 (nanoseconds timeout) then timeout else none

abbrev prefix_match : String → List HttpMatch
prefix_match inbound = record { authority = none; uri = inbound } ∷ []

destinations : List EndpointWeight → List HttpDestination
destinations [] = []
destinations (e ∷ endpoints) =
    record { host = e.endpoint; weight = e.weight % 2 ^ 32 } ∷ destinations endpoints

app_dial_rules : RouteDetails → Table (List EndpointWeight) → List HttpRoute
unfolding destinations get_final_route_timeout
app_dial_rules route [] = []
app_dial_rules route ((app_asset_alias, route_weights) ∷ rest) =
    record {
      name = join (route.route_name ∷ app_asset_alias ∷ []) "-";
      matches = prefix_match route.inbound;
      route = destinations route_weights;
      rewrite = some route.outbound;
      timeout = get_final_route_timeout route.timeout;
    }
    ∷ app_dial_rules route rest

unfoldable pub build_app_dial_rules : RouteDetails → List HttpRoute
unfolding app_dial_rules
build_app_dial_rules route = app_dial_rules route route.app_dialing_details

unfoldable pub build_service_dial_rule : RouteDetails → HttpRoute
unfolding destinations get_final_route_timeout
build_service_dial_rule route = record {
  name = route.route_name;
  matches = prefix_match route.inbound;
  route = destinations route.service_dial_details;
  rewrite = some route.outbound;
  timeout = get_final_route_timeout route.timeout;
}

-- The loop over the environments of a route.
unfoldable pub env_rules :
    NaavikArgs → TrafficConfig → RouteDetails → Route → List String → List HttpRoute
unfolding get_final_route_timeout
env_rules params tc details route [] = []
env_rules params tc details route (env ∷ envs) =
    record {
      name = join (details.route_name ∷ env ∷ []) "-";
      matches = prefix_match route.inbound;
      route =
          record {
            host = get_host env (get_identity_lower_case params tc) params.hostname_suffix;
            weight = 0;
          }
          ∷ [];
      rewrite = some route.outbound;
      timeout = get_final_route_timeout details.timeout;
    }
    ∷ env_rules params tc details route envs

unfoldable pub rules_of_name :
    NaavikArgs → TrafficConfig → RouteDetails → List Route → List HttpRoute
unfolding env_rules
rules_of_name params tc details [] = []
rules_of_name params tc details (route ∷ routes) =
    (if route.name == details.route_name
      then env_rules params tc details route route.workload_env_selectors
      else [])
    ++ rules_of_name params tc details routes

unfoldable pub build_rule_when_route_config_empty :
    NaavikArgs → TrafficConfig → EdgeService → RouteDetails → List HttpRoute
unfolding rules_of_name
build_rule_when_route_config_empty params tc edge details =
    rules_of_name params tc details edge.routes

unfoldable pub build_match_rules_for_virtual_service :
    NaavikArgs → TrafficConfig → EdgeService → List RouteDetails → List HttpRoute
unfolding build_app_dial_rules build_service_dial_rule build_rule_when_route_config_empty
build_match_rules_for_virtual_service params tc edge [] = []
build_match_rules_for_virtual_service params tc edge (route ∷ routes) =
    (if is_empty route.app_dialing_details then [] else build_app_dial_rules route)
    ++ (if is_empty route.service_dial_details
        then if is_empty route.app_dialing_details
          then build_rule_when_route_config_empty params tc edge route
          else []
        else build_service_dial_rule route ∷ [])
    ++ build_match_rules_for_virtual_service params tc edge routes

-- The timeout of the allow-all rules: of the most whole seconds.
longest : Option Duration → List HttpRoute → Option Duration
longest timeout [] = timeout
longest timeout (r ∷ rules) =
    if is_empty r.matches
    then longest timeout rules
    else longest (if ltb (get_seconds timeout) (get_seconds r.timeout) then r.timeout else timeout)
        rules

unfoldable pub create_allow_route_match :
    NaavikArgs → String → Option Duration → String → String → String → HttpRoute
unfolding get_final_route_timeout
create_allow_route_match params env timeout authority_host route_name asset_alias = record {
  name = route_name;
  matches = record { authority = some (to_lower authority_host); uri = "/" } ∷ [];
  route = record { host = get_host env asset_alias params.hostname_suffix; weight = 0 } ∷ [];
  rewrite = none;
  timeout = get_final_route_timeout timeout;
}

allow_all_rules : NaavikArgs → String → Option Duration → List String → List HttpRoute
unfolding create_allow_route_match
allow_all_rules params asset_alias timeout [] = []
allow_all_rules params asset_alias timeout (env ∷ envs) =
    create_allow_route_match params env timeout (get_host env asset_alias params.hostname_suffix)
      (join ("defaultall" ∷ env ∷ []) "-") asset_alias
    ∷ allow_all_rules params asset_alias timeout envs

unfoldable pub add_allow_all_rule : NaavikArgs → TrafficConfig → List HttpRoute → List HttpRoute
unfolding longest allow_all_rules
add_allow_all_rule params tc rules =
    rules
    ++ allow_all_rules params (get_identity_lower_case params tc) (longest none rules)
        tc.workload_env

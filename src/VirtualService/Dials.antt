-- ===== src/VirtualService/Dials.antt =====
-- The weights of virtual_service.go by target group, application and route. A map that the code
-- shares between routes is complete when the loop that fills it ends, as the tables here are.
use mathlib.Core.Option
use naavik.Common.{
  ℕ, String, List, [], ◌∷◌, ◌++◌, Option, none, some, ◌==◌, is_empty, if◌then◌else◌,
}
use naavik.Common.Table
use naavik.Common.Table.{Table}
use naavik.Common.Text.{to_lower}
use naavik.Common.Types.{get_host}
use naavik.Options.{NaavikArgs, items}
use naavik.Resources.{
  Target, TargetGroup, Weight, AppOverride, Config, Route, EdgeService, TrafficConfig,
}
use naavik.TrafficUtil.{get_identity_lower_case}
use naavik.VirtualService.Rules.{EndpointWeight, RouteTargetInfo, RouteDetails, get_route_timeout}

-- By route name, asset alias and name of the weight.
abbrev pub AppDialingDetails : Type 0
AppDialingDetails = Table (Table (Table ℕ))

target_host : NaavikArgs → String → String → String → List Target → String
target_host params identity env selector [] = env
target_host params identity env selector (target ∷ targets) =
    if target.name == selector
    then if target.mesh_dns == ""
      then get_host env identity params.hostname_suffix
      else to_lower target.mesh_dns
    else target_host params identity env selector targets

abbrev host_for : NaavikArgs → String → String → Option (List Target) → List String → String
host_for params identity selector none envs = ""
host_for params identity selector (some targets) [] = ""
host_for params identity selector (some targets) (env ∷ envs) =
    target_host params identity env selector targets

unfoldable pub get_mesh_dns_for_target_group :
    NaavikArgs → TrafficConfig → EdgeService → Config → Route → String
unfolding target_host
get_mesh_dns_for_target_group params tc edge config route =
    host_for params (get_identity_lower_case params tc) config.target_selector edge.targets
      route.workload_env_selectors

weighted : Table ℕ → List RouteTargetInfo → List EndpointWeight
weighted dials [] = []
weighted dials (info ∷ infos) = elim (Table.get dials info.target_group_selector) [
  | none ↦ weighted dials infos
  | some weight ↦ record { endpoint = info.mesh_endpoint; weight = weight } ∷ weighted dials infos
]

-- One target without a group gets the whole weight.
unfoldable pub construct_service_dial_route : Table ℕ → List RouteTargetInfo → List EndpointWeight
unfolding weighted
construct_service_dial_route dials [] = []
construct_service_dial_route dials (info ∷ []) =
    if info.target_group_selector == ""
    then record { endpoint = info.mesh_endpoint; weight = 100 } ∷ []
    else weighted dials (info ∷ [])
construct_service_dial_route dials (info ∷ other ∷ infos) = weighted dials (info ∷ other ∷ infos)

endpoints_for : String → ℕ → List RouteTargetInfo → List EndpointWeight
endpoints_for name weight [] = []
endpoints_for name weight (info ∷ infos) =
    if info.target_group_selector == name
    then record { endpoint = info.mesh_endpoint; weight = weight } ∷ endpoints_for name weight infos
    else endpoints_for name weight infos

app_endpoints : Table ℕ → List RouteTargetInfo → List EndpointWeight
unfolding endpoints_for
app_endpoints [] infos = []
app_endpoints ((name, weight) ∷ weights) infos =
    endpoints_for name weight infos ++ app_endpoints weights infos

unfoldable pub construct_app_dial_routes :
    Table (Table ℕ)
    → List RouteTargetInfo
    → Table (List EndpointWeight)
    → Table (List EndpointWeight)
unfolding app_endpoints
construct_app_dial_routes [] infos found = found
construct_app_dial_routes ((asset_alias, weights) ∷ apps) infos found =
    if is_empty (app_endpoints weights infos)
    then construct_app_dial_routes apps infos found
    else construct_app_dial_routes apps infos
        (Table.set found asset_alias (app_endpoints weights infos))

target_infos : NaavikArgs → TrafficConfig → EdgeService → Route → List Config → List RouteTargetInfo
unfolding get_mesh_dns_for_target_group
target_infos params tc edge route [] = []
target_infos params tc edge route (config ∷ configs) =
    record {
      target_group_selector = config.target_group_selector;
      mesh_endpoint = get_mesh_dns_for_target_group params tc edge config route;
    }
    ∷ target_infos params tc edge route configs

abbrev bare_details : Route → RouteDetails
bare_details route = record {
  route_name = route.name;
  inbound = route.inbound;
  outbound = route.outbound;
  config_details = [];
  timeout = get_route_timeout route;
  service_dial_details = [];
  app_dialing_details = [];
}

route_details :
    NaavikArgs → TrafficConfig → EdgeService → AppDialingDetails → Table ℕ → Route → RouteDetails
unfolding get_route_timeout target_infos construct_app_dial_routes construct_service_dial_route
route_details params tc edge apps dials route = elim route.config [
  | none ↦ bare_details route
  | some configs ↦
      let infos = target_infos params tc edge route configs in
      record (bare_details route) {
        config_details = infos;
        service_dial_details = construct_service_dial_route dials infos;
        app_dialing_details =
            construct_app_dial_routes (Option.get_or (Table.get apps route.name) []) infos [];
      }
]

details_of_all :
    NaavikArgs
    → TrafficConfig
    → EdgeService
    → AppDialingDetails
    → Table ℕ
    → List Route
    → List RouteDetails
unfolding route_details
details_of_all params tc edge apps dials [] = []
details_of_all params tc edge apps dials (route ∷ routes) =
    route_details params tc edge apps dials route ∷ details_of_all params tc edge apps dials routes

unfoldable pub get_combined_route_details :
    NaavikArgs → TrafficConfig → EdgeService → AppDialingDetails → Table ℕ → List RouteDetails
unfolding details_of_all
get_combined_route_details params tc edge apps dials =
    details_of_all params tc edge apps dials edge.routes

-- `getTargetGroupRouteNameMap`: the routes of each target group, one for each weight that a
-- configuration of the route selects.
abbrev pub RouteNames : Type 0
RouteNames = Table (List String)

abbrev add_route : RouteNames → String → String → RouteNames
add_route m group route = Table.set m group (Option.get_or (Table.get m group) [] ++ route ∷ [])

names_for_weights : RouteNames → String → String → String → List Weight → RouteNames
names_for_weights m group route selector [] = m
names_for_weights m group route selector (w ∷ weights) =
    if w.name == selector
    then names_for_weights (add_route m group route) group route selector weights
    else names_for_weights m group route selector weights

names_for_overrides : RouteNames → String → String → String → List AppOverride → RouteNames
unfolding names_for_weights
names_for_overrides m group route selector [] = m
names_for_overrides m group route selector (o ∷ overrides) =
    names_for_overrides (names_for_weights m group route selector o.weights) group route selector
      overrides

names_for_groups : RouteNames → String → String → List TargetGroup → RouteNames
unfolding names_for_weights names_for_overrides
names_for_groups m route selector [] = m
names_for_groups m route selector (g ∷ groups) =
    names_for_groups
      (names_for_overrides (names_for_weights m g.name route selector g.weights) g.name route
        selector (items g.app_overrides))
      route selector groups

names_for_configs : RouteNames → List TargetGroup → String → List Config → RouteNames
unfolding names_for_groups
names_for_configs m groups route [] = m
names_for_configs m groups route (config ∷ configs) =
    names_for_configs (names_for_groups m route config.target_group_selector groups) groups route
      configs

names_for_routes : RouteNames → List TargetGroup → List Route → RouteNames
unfolding names_for_configs
names_for_routes m groups [] = m
names_for_routes m groups (route ∷ routes) =
    names_for_routes (names_for_configs m groups route.name (items route.config)) groups routes

unfoldable pub get_target_group_route_name_map : EdgeService → RouteNames
unfolding names_for_routes
get_target_group_route_name_map edge = names_for_routes [] (items edge.target_groups) edge.routes

-- `buildTargetGroupRouteNameMap`: the weights by name, and by application for the routes of a group.
weights_into : Table ℕ → List Weight → Table ℕ
weights_into m [] = m
weights_into m (w ∷ weights) = weights_into (Table.set m w.name w.weight) weights

overrides_into : Table (Table ℕ) → List AppOverride → Table (Table ℕ)
unfolding weights_into
overrides_into m [] = m
overrides_into m (o ∷ overrides) =
    overrides_into (Table.set m o.asset_alias (weights_into [] o.weights)) overrides

for_routes : AppDialingDetails → Table (Table ℕ) → List String → AppDialingDetails
for_routes apps m [] = apps
for_routes apps m (route ∷ routes) = for_routes (Table.set apps route m) m routes

group_apps : AppDialingDetails → RouteNames → TargetGroup → AppDialingDetails
unfolding overrides_into for_routes
group_apps apps names g =
    if is_empty (items g.app_overrides)
    then apps
    else for_routes apps (overrides_into [] (items g.app_overrides))
        (Option.get_or (Table.get names g.name) [])

unfoldable pub build_target_group_route_name_map :
    RouteNames → List TargetGroup → AppDialingDetails → Table ℕ → AppDialingDetails × Table ℕ
unfolding group_apps weights_into
build_target_group_route_name_map names [] apps dials = (apps, dials)
build_target_group_route_name_map names (g ∷ groups) apps dials =
    build_target_group_route_name_map names groups (group_apps apps names g)
      (weights_into dials g.weights)

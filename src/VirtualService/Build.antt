-- ===== src/VirtualService/Build.antt =====
-- The whole virtual service of virtual_service.go.
use naavik.Common.{
  ℕ, ◌/◌, ◌%◌, String, Bool, true, false, List, [], ◌∷◌, ◌++◌, Option, none, some, ◌==◌, ◌||◌,
  is_some, is_empty, if◌then◌else◌,
}
use naavik.Common.Table.{Table}
use naavik.Common.Text.{to_lower, join}
use naavik.Common.Types.{
  get_host, revision_number_key, transaction_id_key, created_for_env_key, created_for_key,
  created_by_key, naavik_name, created_for_traffic_env_key,
}
use naavik.Options.{NaavikArgs, items}
use naavik.Resources.{Route, EdgeService, TrafficConfig}
use naavik.TrafficUtil.{
  get_identity, get_identity_lower_case, get_revision, get_transaction_id, get_env,
}
use naavik.VirtualService.Rules.{
  Duration, HttpRoute, build_rule_when_route_config_empty, build_match_rules_for_virtual_service,
  add_allow_all_rule,
}
use naavik.VirtualService.Dials.{
  get_target_group_route_name_map, build_target_group_route_name_map, get_combined_route_details,
}

-- A nil map of annotations is `none`: a write to it panics.
pub record VirtualService : Type 0 where
  pub name : String
  pub namespace : String
  pub resource_version : String
  pub annotations : Option (Table String)
  pub labels : Table String
  pub hosts : List String
  pub http : List HttpRoute

-- `checkIfHostAlreadyExists`
abbrev pub check_if_host_already_exists : List String → String → Bool
check_if_host_already_exists [] host = false
check_if_host_already_exists (h ∷ hosts) host =
    if h == host then true else check_if_host_already_exists hosts host

unfoldable pub hosts_into : NaavikArgs → String → List String → List String → List String
hosts_into params asset_alias hosts [] = hosts
hosts_into params asset_alias hosts (env ∷ envs) =
    hosts_into params asset_alias
      (if check_if_host_already_exists hosts (get_host env asset_alias params.hostname_suffix)
        then hosts
        else hosts ++ to_lower (get_host env asset_alias params.hostname_suffix) ∷ [])
      envs

unfoldable pub construct_hosts_for_virtual_service : NaavikArgs → List String → String → List String
unfolding hosts_into
construct_hosts_for_virtual_service params envs asset_alias = hosts_into params asset_alias [] envs

abbrev pub env_prefix : String → Option String
env_prefix env =
    if env == "qa"
    then some "qal"
    else if env == "e2e" || env == "prd" || env == "prf"
    then some env
    else none

abbrev vs_name : NaavikArgs → String → Option String → String
vs_name params asset_alias none = ""
vs_name params asset_alias (some prefix) =
    join (get_host prefix asset_alias params.hostname_suffix ∷ "vs" ∷ []) "-"

unfoldable pub get_virtual_service_name : NaavikArgs → String → String → String
get_virtual_service_name params env asset_alias = vs_name params asset_alias (env_prefix env)

unfoldable pub build_virtual_service_object :
    NaavikArgs → TrafficConfig → List HttpRoute → VirtualService
unfolding get_virtual_service_name construct_hosts_for_virtual_service
build_virtual_service_object params tc routes = record {
  name = get_virtual_service_name params (get_env tc) (get_identity_lower_case params tc);
  namespace = params.sync_namespace;
  resource_version = "";
  annotations = some (
      (revision_number_key, get_revision tc)
      ∷ (transaction_id_key, get_transaction_id tc)
      ∷ (created_for_env_key, join tc.workload_env "_")
      ∷ []);
  labels =
      (created_for_key, to_lower (get_identity params tc))
      ∷ (created_by_key, naavik_name)
      ∷ (created_for_traffic_env_key, get_env tc)
      ∷ [];
  hosts =
      construct_hosts_for_virtual_service params tc.workload_env
        (get_identity_lower_case params tc);
  http = routes;
}

-- `durationpb.New(time.Duration(t))`: the milliseconds of the route, which are not negative, taken
-- for nanoseconds
abbrev pub duration_of_nanoseconds : ℕ → Duration
duration_of_nanoseconds t = record { seconds = t / 1000000000; nanos = t % 1000000000 }

unfoldable pub construct_vs_route_without_target_details :
    NaavikArgs → TrafficConfig → EdgeService → Route → List HttpRoute
construct_vs_route_without_target_details params tc edge route =
    if is_some route.config
    then []
    else build_rule_when_route_config_empty params tc edge (record {
      route_name = route.name;
      inbound = "";
      outbound = "";
      config_details = [];
      timeout = some (duration_of_nanoseconds route.timeout);
      service_dial_details = [];
      app_dialing_details = [];
    })

rules_without_targets : NaavikArgs → TrafficConfig → EdgeService → List Route → List HttpRoute
unfolding construct_vs_route_without_target_details
rules_without_targets params tc edge [] = []
rules_without_targets params tc edge (route ∷ routes) =
    construct_vs_route_without_target_details params tc edge route
    ++ rules_without_targets params tc edge routes

unfoldable pub build_virtual_service_without_target_details :
    NaavikArgs → TrafficConfig → EdgeService → VirtualService
unfolding rules_without_targets
build_virtual_service_without_target_details params tc edge =
    build_virtual_service_object params tc
      (add_allow_all_rule params tc (rules_without_targets params tc edge edge.routes))

with_target_details : NaavikArgs → TrafficConfig → EdgeService → VirtualService
with_target_details params tc edge =
    let (apps, dials) =
      build_target_group_route_name_map (get_target_group_route_name_map edge)
        (items edge.target_groups) [] [] in
    build_virtual_service_object params tc (
      add_allow_all_rule params tc (
        build_match_rules_for_virtual_service params tc edge
          (get_combined_route_details params tc edge apps dials)))

abbrev empty_virtual_service : VirtualService
empty_virtual_service = record {
  name = "";
  namespace = "";
  resource_version = "";
  annotations = none;
  labels = [];
  hosts = [];
  http = [];
}

-- `none` is the error on an edge service without routes.
unfoldable pub build_virtual_service_for_mesh_dependents :
    NaavikArgs → TrafficConfig → Option VirtualService
unfolding build_virtual_service_without_target_details with_target_details
build_virtual_service_for_mesh_dependents params tc = elim tc.edge_service [
  | none ↦ some empty_virtual_service
  | some edge ↦
      if is_empty edge.routes
      then none
      else if is_some edge.targets
      then if is_some edge.target_groups
        then some (with_target_details params tc edge)
        else some (build_virtual_service_without_target_details params tc edge)
      else some (build_virtual_service_without_target_details params tc edge)
]

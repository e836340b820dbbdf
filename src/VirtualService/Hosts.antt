-- ===== src/VirtualService/Hosts.antt =====
-- What virtual services hold: their hosts, and the timeouts of a configuration without targets.
use mathlib.Core.Path.{subst}
use naavik.Common.{
  ℕ, ◌/◌, ◌%◌, Option, is_some, leb, if◌then◌else◌, Bool-cases, inl, inr, String, Bool, true, false,
  not, ◌&&◌, ◌||◌, List, [], ◌∷◌, ◌++◌, none, some, ◌≡◌, refl, arith, ◌==◌, eq_iff,
}
use naavik.Common.Text.{to_lower, to_lower_idem}
use naavik.Common.Types.{get_host}
use naavik.Options.{NaavikArgs}
use naavik.Resources.{Route, EdgeService, TrafficConfig}
use naavik.Set.Laws.{listed}
use naavik.VirtualService.Rules.{
  Duration, HttpRoute, RouteDetails, env_rules, rules_of_name, build_rule_when_route_config_empty,
  get_final_route_timeout,
}
use naavik.VirtualService.Build.{
  check_if_host_already_exists, hosts_into, construct_hosts_for_virtual_service,
  construct_vs_route_without_target_details,
}

-- Whether a host is that of one of the environments.
abbrev pub is_host_of : NaavikArgs → String → List String → String → Bool
is_host_of params asset_alias [] host = false
is_host_of params asset_alias (env ∷ envs) host =
    get_host env asset_alias params.hostname_suffix == host
    || is_host_of params asset_alias envs host

-- No text is listed twice.
abbrev pub no_repeats : List String → Bool
no_repeats [] = true
no_repeats (x ∷ xs) = not (listed xs x) && no_repeats xs

listed-append :
    (l : List String) (x host : String) → listed (l ++ x ∷ []) host ≡ (listed l host || x == host)
listed-append [] x host = ground arith
listed-append (y ∷ l) x host = ground (arith, listed-append l x host)

no_repeats-append :
    (l : List String) (x : String) → no_repeats (l ++ x ∷ []) ≡ (no_repeats l && not (listed l x))
no_repeats-append [] x = refl
no_repeats-append (y ∷ l) x =
    ground (arith, no_repeats-append l x, listed-append l x y, eq_iff x y, eq_iff y x)

check-listed :
    (l : List String) (host : String) → check_if_host_already_exists l host ≡ listed l host
check-listed [] host = refl
check-listed (x ∷ l) host = ground (arith, check-listed l host)

host_lower :
    (env asset_alias suffix : String)
    → to_lower (get_host env asset_alias suffix) ≡ get_host env asset_alias suffix
unfolding get_host
host_lower env asset_alias suffix = to_lower_idem _

hosts_into-listed :
    (params : NaavikArgs) (asset_alias : String) (hosts envs : List String) (host : String)
    → listed (hosts_into params asset_alias hosts envs) host
      ≡ (listed hosts host || is_host_of params asset_alias envs host)
unfolding hosts_into
hosts_into-listed params asset_alias hosts [] host = ground arith
hosts_into-listed params asset_alias hosts (env ∷ envs) host =
    let new = get_host env asset_alias params.hostname_suffix in
    ground (
      arith,
      hosts_into-listed params asset_alias hosts envs host,
      hosts_into-listed params asset_alias (hosts ++ to_lower new ∷ []) envs host,
      listed-append hosts (to_lower new) host,
      check-listed hosts new,
      host_lower env asset_alias params.hostname_suffix,
      eq_iff new host,
    )

hosts_into-no_repeats :
    (params : NaavikArgs) (asset_alias : String) (hosts envs : List String)
    → no_repeats hosts ≡ true
    → no_repeats (hosts_into params asset_alias hosts envs) ≡ true
unfolding hosts_into
hosts_into-no_repeats params asset_alias hosts [] h = h
hosts_into-no_repeats params asset_alias hosts (env ∷ envs) h =
    let new = get_host env asset_alias params.hostname_suffix in
    ground (
      arith,
      hosts_into-no_repeats params asset_alias hosts envs h,
      hosts_into-no_repeats params asset_alias (hosts ++ to_lower new ∷ []) envs,
      no_repeats-append hosts (to_lower new),
      check-listed hosts new,
      host_lower env asset_alias params.hostname_suffix,
    )

-- The hosts of a virtual service are exactly those of the environments, each one once.
pub construct_hosts-exact :
    (params : NaavikArgs) (envs : List String) (asset_alias host : String)
    → (listed (construct_hosts_for_virtual_service params envs asset_alias) host
        ≡ is_host_of params asset_alias envs host)
      × (no_repeats (construct_hosts_for_virtual_service params envs asset_alias) ≡ true)
unfolding construct_hosts_for_virtual_service
construct_hosts-exact params envs asset_alias host = (
  hosts_into-listed params asset_alias [] envs host,
  hosts_into-no_repeats params asset_alias [] envs refl,
)

-- Each rule has this timeout.
abbrev pub HasTimeouts : Option Duration → List HttpRoute → Type 0
HasTimeouts timeout [] = Unit
HasTimeouts timeout (rule ∷ rules) = (rule.timeout ≡ timeout) × HasTimeouts timeout rules

HasTimeouts-append :
    (timeout : Option Duration) (l m : List HttpRoute)
    → HasTimeouts timeout l
    → HasTimeouts timeout m
    → HasTimeouts timeout (l ++ m)
HasTimeouts-append timeout [] m h k = k
HasTimeouts-append timeout (rule ∷ l) m (e, h) k = (e, HasTimeouts-append timeout l m h k)

module _ (params : NaavikArgs) (tc : TrafficConfig) (details : RouteDetails) where
  env_rules-HasTimeouts :
      (route : Route) (envs : List String)
      → HasTimeouts
          (get_final_route_timeout details.timeout)
          (env_rules params tc details route envs)
  unfolding env_rules
  env_rules-HasTimeouts route [] = tt
  env_rules-HasTimeouts route (env ∷ envs) = (refl, env_rules-HasTimeouts route envs)

  rules_of_name-HasTimeouts :
      (routes : List Route)
      → HasTimeouts
          (get_final_route_timeout details.timeout)
          (rules_of_name params tc details routes)
  unfolding rules_of_name
  rules_of_name-HasTimeouts [] = tt
  rules_of_name-HasTimeouts (route ∷ routes) =
      elim (Bool-cases (route.name == details.route_name)) [
        | inl same ↦ rw same (
            HasTimeouts-append _ _ _ (env_rules-HasTimeouts route route.workload_env_selectors)
              (rules_of_name-HasTimeouts routes))
        | inr other ↦ rw other (rules_of_name-HasTimeouts routes)
      ]

-- What is left of a number of nanoseconds as the timeout of a rule
abbrev pub timeout_of : ℕ → Option Duration
timeout_of t =
    if leb t 1000000
    then none
    else some (record { seconds = t / 1000000000; nanos = t % 1000000000 })

final_timeout :
    (t : ℕ)
    → get_final_route_timeout (some (record { seconds = t / 1000000000; nanos = t % 1000000000 }))
      ≡ timeout_of t
unfolding get_final_route_timeout
final_timeout t = ground arith

-- For a TrafficConfig without targets, a route's timeout of milliseconds is taken for nanoseconds:
-- every rule that is made from the route has no timeout where its milliseconds are up to a million,
-- and a millionth of the timeout where they are more. Timeouts are not negative.
pub without_targets-timeouts :
    (params : NaavikArgs) (tc : TrafficConfig) (edge : EdgeService) (route : Route)
    → HasTimeouts
        (timeout_of route.timeout)
        (construct_vs_route_without_target_details params tc edge route)
unfolding construct_vs_route_without_target_details build_rule_when_route_config_empty
without_targets-timeouts params tc edge route =
    let details : RouteDetails = record {
      route_name = route.name;
      inbound = "";
      outbound = "";
      config_details = [];
      timeout =
          some
            (record { seconds = route.timeout / 1000000000; nanos = route.timeout % 1000000000 });
      service_dial_details = [];
      app_dialing_details = [];
    } in
    elim (Bool-cases (is_some route.config)) [
      | inl configured ↦ rw configured tt
      | inr empty ↦ rw empty (
          subst (λ d. HasTimeouts d (rules_of_name params tc details edge.routes))
            (final_timeout route.timeout) (rules_of_name-HasTimeouts params tc details edge.routes))
    ]

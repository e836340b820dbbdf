-- ===== src/Server.antt =====
-- internal/server: the HTTP API, which answers from the caches and from the Istio clients. Its
-- router and its JSON are gin's: a handler is a function from the parameters of a path to a status
-- and a body. Gathered has the answers that gather from clusters, Answers the others, and Selectors
-- what the listings find.
pub mod Answers
pub mod Gathered
pub mod Routes
pub mod Selectors
pub mod Exact
use naavik.Common.{ℕ, String, Bool, List, Option, none, some, not, if◌then◌else◌, leb}
use naavik.Common.Table.{Table}
use naavik.Common.Text.{has_suffix}
use naavik.Resources.{TrafficConfig, Workload, Service}
use naavik.Cache.Nested.{Entry, Item}
use naavik.Cache.TrafficConfigs.{TrafficConfigEntry}

-- The lists that the Istio API returns are of types of its library, `FilterList` and `ServiceList`.
pub data Resource (FilterList ServiceList : Type 0) : Type 0 where
  filter_list : FilterList → Resource FilterList ServiceList
  service_list : ServiceList → Resource FilterList ServiceList
  error_response : String → Resource FilterList ServiceList

-- The bodies by their types; a nil pointer is `none`.
pub data Body (FilterList ServiceList : Type 0) : Type 0 where
  resource : Resource FilterList ServiceList → Body FilterList ServiceList
  resources : Table (Table (Resource FilterList ServiceList)) → Body FilterList ServiceList
  clusters : List (String × String) → Body FilterList ServiceList
  names : List String → Body FilterList ServiceList
  total : ℕ → Body FilterList ServiceList
  text : String → Body FilterList ServiceList
  traffic_config_entry : Option TrafficConfigEntry → Body FilterList ServiceList
  traffic_config : Option TrafficConfig → Body FilterList ServiceList
  workload : String → Option Workload → Option Workload → Body FilterList ServiceList
  cluster_workload :
      String → Option (Entry Workload) → Option (Entry Workload) → Body FilterList ServiceList
  workload_items :
      String → List (Item Workload) → List (Item Workload) → Body FilterList ServiceList
  services : Option (Entry Service) → Body FilterList ServiceList

pub record Response (FilterList ServiceList : Type 0) : Type 0 where
  pub status : ℕ
  pub body : Body FilterList ServiceList

abbrev pub status_ok : ℕ
status_ok = 200

abbrev pub status_not_found : ℕ
status_not_found = 404

abbrev pub status_internal_server_error : ℕ
status_internal_server_error = 500

-- An answer of the Istio API: a list, or the text of an error.
pub data Answer (A : Type 0) : Type 0 where
  listed : A → Answer A
  failed : String → Answer A

-- The Istio clients of the clusters, by cluster, namespace and the labels of the selector.
pub record Istio (FilterList ServiceList : Type 0) : Type 0 where
  pub list_envoy_filters : String → String → Table String → Answer FilterList
  pub list_virtual_services : String → String → Table String → Answer ServiceList

abbrev pub health_check_path : String
health_check_path = "/health/full"

-- `HealthCheck`
abbrev pub health_check : {FilterList ServiceList : Type 0} → Response FilterList ServiceList
health_check = record { status = status_ok; body = text "Health full ok" }

-- `Logger` of router.go: the level of the line for a request, if it is logged.
pub data Level : Type 0 where
  error warn info : Level

unfoldable pub logger : String → ℕ → Bool → Option Level
unfolding has_suffix
logger path status has_errors =
    if not (has_suffix path health_check_path)
    then none
    else if has_errors
    then some error
    else if leb 500 status
    then some error
    else if leb 400 status
    then some warn
    else some info

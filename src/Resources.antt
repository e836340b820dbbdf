-- ===== src/Resources.antt =====
-- The Kubernetes, Argo, Istio and Admiral objects, by the fields that the program reads or writes.
-- Pointers to objects are the objects: the program writes through none of those that it caches.
-- Weights and timeouts are natural numbers.
use naavik.Common.{ℕ, String, List, Option}
use naavik.Common.Table.{Table}
use naavik.Common.Words.{ℤ}
use naavik.Meta.{ObjectMeta}

-- A Deployment or a Rollout: its own metadata, and that of `Spec.Template`.
pub record Workload : Type 0 where
  pub meta : ObjectMeta
  pub template : ObjectMeta

pub record Service : Type 0 where
  pub meta : ObjectMeta

-- `Spec.Source` and `Spec.Destinations`
pub record Dependency : Type 0 where
  pub source : String
  pub destinations : List String

pub record Target : Type 0 where
  pub name : String
  pub mesh_dns : String

pub record Weight : Type 0 where
  pub name : String
  pub weight : ℕ

pub record AppOverride : Type 0 where
  pub asset_alias : String
  pub weights : List Weight

-- `none` is a nil slice, which the program tells from an empty one.
pub record TargetGroup : Type 0 where
  pub name : String
  pub weights : List Weight
  pub app_overrides : Option (List AppOverride)

pub record Config : Type 0 where
  pub target_selector : String
  pub target_group_selector : String

-- `timeout` is in milliseconds.
pub record Route : Type 0 where
  pub name : String
  pub inbound : String
  pub outbound : String
  pub timeout : ℕ
  pub workload_env_selectors : List String
  pub config : Option (List Config)

pub record EdgeService : Type 0 where
  pub routes : List Route
  pub targets : Option (List Target)
  pub target_groups : Option (List TargetGroup)

pub record Header : Type 0 where
  pub name : String
  pub value : String
  pub condition : String

pub record Quota : Type 0 where
  pub name : String
  pub time_period : String
  pub max_amount : ℤ
  pub path : String
  pub methods : List String
  pub headers : List Header

pub record TotalQuotaGroup : Type 0 where
  pub name : String
  pub workload_env_selectors : List String
  pub quotas : List Quota

pub record AppQuotaGroup : Type 0 where
  pub name : String
  pub workload_env_selectors : List String
  pub associated_apps : List String
  pub quotas : List Quota

pub record QuotaGroup : Type 0 where
  pub total_quota_group : List TotalQuotaGroup
  pub app_quota_groups : List AppQuotaGroup

pub record TrafficConfig : Type 0 where
  pub meta : ObjectMeta
  pub workload_env : List String
  pub edge_service : Option EdgeService
  pub quota_group : Option QuotaGroup

-- What an informer hands to a handler, before the type assertion of the handler.
pub data Object : Type 0 where
  deployment rollout : Workload → Object
  service : Service → Object
  dependency : Dependency → Object
  traffic_config : TrafficConfig → Object
  secret : ObjectMeta → Table String → Object
  other : Object

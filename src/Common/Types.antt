-- ===== src/Common/Types.antt =====
-- internal/types/common.go: the constants and `GetHost`.
use mathlib.Core.List.{[], ◌∷◌}
use Prim.Native.String.{String}
use naavik.Common.Text.{to_lower, join}

pub data FeatureName : Type 0 where
  feature_virtual_service feature_throttle_filter : FeatureName

abbrev pub feature_text : FeatureName → String
feature_text feature_virtual_service = "virtualservice"
feature_text feature_throttle_filter = "throttlefilter"

pub data EventType : Type 0 where
  add update delete : EventType

abbrev pub naavik_name : String
naavik_name = "naavik"

abbrev pub namespace_istio_system : String
namespace_istio_system = "istio-system"

abbrev pub transaction_id_key : String
transaction_id_key = "transactionID"

abbrev pub revision_number_key : String
revision_number_key = "revisionNumber"

abbrev pub created_by_key : String
created_by_key = "createdBy"

abbrev pub created_type_key : String
created_type_key = "createdType"

abbrev pub created_for_key : String
created_for_key = "createdFor"

abbrev pub created_for_env_key : String
created_for_env_key = "createdForEnv"

abbrev pub created_for_traffic_env_key : String
created_for_traffic_env_key = "createdForTrafficEnv"

abbrev pub env_key : String
env_key = "env"

abbrev pub is_disabled_key : String
is_disabled_key = "isDisabled"

abbrev pub is_true : String
is_true = "true"

abbrev pub env_default : String
env_default = "default"

abbrev pub include_inbound_ports_annotation : String
include_inbound_ports_annotation = "admiral.io/inboundPorts"

abbrev pub config_resolver_secret : String
config_resolver_secret = "secret"

abbrev pub state_checker_none : String
state_checker_none = "none"

-- The constants of `MatchCondition`, a type of texts
abbrev pub condition_exact : String
condition_exact = "exact"

abbrev pub condition_prefix : String
condition_prefix = "prefix"

abbrev pub condition_suffix : String
condition_suffix = "suffix"

abbrev pub condition_contains : String
condition_contains = "contains"

abbrev pub condition_regex : String
condition_regex = "regex"

-- `GetHost`
unfoldable pub get_host : String → String → String → String
get_host env asset suffix = to_lower (join (env ∷ asset ∷ suffix ∷ []) ".")

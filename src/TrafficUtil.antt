-- ===== src/TrafficUtil.antt =====
-- pkg/utils/trafficconfig_utils.go: what the program reads from a TrafficConfig. The configurations
-- are never nil: each caller has asserted the type of an object, or read it from the cache.
pub mod Laws
use naavik.Common.{String, Bool, false, ◌==◌, if◌then◌else◌}
use naavik.Common.Text.{to_lower}
use naavik.Common.Types.{transaction_id_key, revision_number_key, env_key, is_disabled_key, is_true}
use naavik.Meta.{ObjectMeta, at, label_or_annotation}
use naavik.Options.{NaavikArgs}
use naavik.Resources.{TrafficConfig}

unfoldable pub get_identity : NaavikArgs → TrafficConfig → String
get_identity params tc = label_or_annotation tc.meta params.traffic_config_identity_key

unfoldable pub get_identity_lower_case : NaavikArgs → TrafficConfig → String
unfolding get_identity
get_identity_lower_case params tc = to_lower (get_identity params tc)

unfoldable pub get_revision : TrafficConfig → String
get_revision tc = label_or_annotation tc.meta revision_number_key

unfoldable pub get_transaction_id : TrafficConfig → String
get_transaction_id tc = label_or_annotation tc.meta transaction_id_key

unfoldable pub get_env : TrafficConfig → String
get_env tc = label_or_annotation tc.meta env_key

-- A non-empty label decides; else a non-empty annotation does. Only the exact text "true" counts.
abbrev flag : ObjectMeta → String → Bool
flag meta k =
    if at meta.labels k == ""
    then if at meta.annotations k == "" then false else at meta.annotations k == is_true
    else at meta.labels k == is_true

unfoldable pub is_ignored : NaavikArgs → TrafficConfig → Bool
is_ignored params tc = flag tc.meta params.resource_ignore_label

unfoldable pub is_disabled : TrafficConfig → Bool
is_disabled tc = flag tc.meta is_disabled_key

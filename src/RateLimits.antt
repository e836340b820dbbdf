-- ===== src/RateLimits.antt =====
-- internal/handler/trafficconfig/rate_limiting_handler.go and rate_limiting_helper.go: the local rate
-- limits of an application. Here are the messages of Envoy and what a quota becomes. Routes has the
-- patches of a filter, Loops those of its quotas, Create the filters of a cluster, and Handle their
-- way to the clusters.
pub mod Structs
pub mod Routes
pub mod Loops
pub mod Reference
pub mod Create
pub mod Handle
pub mod Clusters
pub mod Names
pub mod Values
pub mod Applied
use naavik.Common.{
  ℕ, String, List, [], ◌∷◌, ◌++◌, Option, none, some, ◌==◌, if◌then◌else◌, is_empty,
}
use naavik.Common.Bytes.{bytes_of, encode_to_string}
use naavik.Common.Replace.{replace_all}
use naavik.Common.Text.{to_lower, to_upper, join}
use naavik.Common.Types.{
  condition_exact, condition_prefix, condition_suffix, condition_contains, condition_regex,
}
use naavik.Common.Words.{ℤ, uint32}
use naavik.Options.{NaavikArgs}
use naavik.Resources.{Header, Quota}

-- `typev3.TokenBucket`; the interval is in nanoseconds.
pub record TokenBucket : Type 0 where
  pub max_tokens : ℕ
  pub fill_interval : ℤ
  pub tokens_per_fill : ℕ

pub record DescriptorEntry : Type 0 where
  pub key : String
  pub value : String

pub record LocalRateLimitDescriptor : Type 0 where
  pub token_bucket : TokenBucket
  pub entries : List DescriptorEntry

pub data StringMatcher : Type 0 where
  exact prefix suffix contains safe_regex : String → StringMatcher

-- `none` is a nil matcher.
pub record HeaderMatcher : Type 0 where
  pub name : String
  pub string_match : Option StringMatcher

-- An action that is a `HeaderValueMatch`
pub record Action : Type 0 where
  pub descriptor_key : String
  pub descriptor_value : String
  pub headers : List HeaderMatcher

pub record RateLimit : Type 0 where
  pub actions : List Action

unfoldable pub get_token_bucket : ℤ → ℤ → ℤ → TokenBucket
unfolding uint32
get_token_bucket max_tokens tokens_per_fill fill_interval = record {
  max_tokens = uint32 max_tokens;
  fill_interval = fill_interval;
  tokens_per_fill = uint32 tokens_per_fill;
}

unfoldable pub get_descriptor_key : List String → String
get_descriptor_key s = encode_to_string (bytes_of (join s ":"))

unfoldable pub get_path_regex : String → String
get_path_regex path = replace_all (replace_all path ".*" "*") "*" ".*"

both_cases : List String → List String
both_cases [] = []
both_cases (method ∷ methods) = to_lower method ∷ to_upper method ∷ both_cases methods

unfoldable pub get_method_regex : List String → String
unfolding both_cases
get_method_regex methods = if is_empty methods then ".*" else join (both_cases methods) "|"

-- The matcher of a condition; an unknown condition has none.
string_matcher : String → String → Option StringMatcher
string_matcher value condition =
    if condition == condition_exact
    then some (exact value)
    else if condition == condition_prefix
    then some (prefix value)
    else if condition == condition_suffix
    then some (suffix value)
    else if condition == condition_contains
    then some (contains value)
    else if condition == condition_regex
    then some (safe_regex value)
    else none

unfoldable pub get_header_matcher : String → String → String → HeaderMatcher
unfolding string_matcher
get_header_matcher name value condition = record {
  name = name;
  string_match = string_matcher value condition;
}

unfoldable pub get_quota_descriptor_entry : String → String → DescriptorEntry
get_quota_descriptor_entry tcg_name quota_name =
    let key = get_descriptor_key (tcg_name ∷ quota_name ∷ []) in record { key = key; value = key }

unfoldable pub get_associated_app_descriptor_entry :
    String → String → String → Option DescriptorEntry
get_associated_app_descriptor_entry tcg_name quota_name associated_app =
    let key = get_descriptor_key (tcg_name ∷ quota_name ∷ associated_app ∷ []) in
    if associated_app == "" then none else some (record { key = key; value = key })

-- `append(l, x)` unless x is nil
abbrev pub append_some {ℓ} : {A : Type ℓ} → List A → Option A → List A
append_some l none = l
append_some l (some x) = l ++ x ∷ []

unfoldable pub get_descriptor_config : String → String → Quota → ℤ → LocalRateLimitDescriptor
get_descriptor_config tcg_name associated_app quota time_period = record {
  token_bucket = get_token_bucket quota.max_amount quota.max_amount time_period;
  entries =
      append_some (get_quota_descriptor_entry tcg_name quota.name ∷ [])
        (get_associated_app_descriptor_entry tcg_name quota.name associated_app);
}

header_matchers : List Header → List HeaderMatcher
header_matchers [] = []
header_matchers (header ∷ headers) =
    get_header_matcher header.name header.value header.condition ∷ header_matchers headers

unfoldable pub get_quota_action : String → Quota → Action
unfolding header_matchers
get_quota_action tcg_name quota =
    let key = get_descriptor_key (tcg_name ∷ quota.name ∷ []) in
    record {
      descriptor_key = key;
      descriptor_value = key;
      headers =
          get_header_matcher ":path" (get_path_regex quota.path) condition_regex
          ∷ get_header_matcher ":method" (get_method_regex quota.methods) condition_regex
          ∷ header_matchers quota.headers;
    }

unfoldable pub get_associated_app_action : NaavikArgs → String → String → String → Option Action
get_associated_app_action params tcg_name quota_name associated_app =
    let key = get_descriptor_key (tcg_name ∷ quota_name ∷ associated_app ∷ []) in
    if associated_app == ""
    then none
    else some (record {
      descriptor_key = key;
      descriptor_value = key;
      headers =
          get_header_matcher params.traffic_config_identity_key associated_app condition_exact ∷ [];
    })

unfoldable pub get_rate_limit_config : NaavikArgs → String → String → Quota → RateLimit
get_rate_limit_config params tcg_name associated_app quota = record {
  actions =
      append_some (get_quota_action tcg_name quota ∷ [])
        (get_associated_app_action params tcg_name quota.name associated_app);
}

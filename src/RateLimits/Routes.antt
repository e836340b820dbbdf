-- ===== src/RateLimits/Routes.antt =====
-- rate_limiting_handler.go: the configuration patches of a filter.
use naavik.Common.{
  String, Bool, true, false, List, [], ◌∷◌, Option, none, some, ◌==◌, if◌then◌else◌,
}
use naavik.Common.Replace.{replace_all}
use naavik.Common.Text.{split, join}
use naavik.Common.Types.{include_inbound_ports_annotation}
use naavik.Common.Words.{ℤ, pos}
use naavik.Meta.{at}
use naavik.Resources.{Workload}
use naavik.Cache.Deployments
use naavik.Cache.Rollouts
use naavik.RateLimits.{TokenBucket, LocalRateLimitDescriptor, RateLimit, get_token_bucket}
use naavik.RateLimits.Structs.{
  Value, Struct, string_value, number_value, struct_value, list_value, no_fields, field, list_of,
}

-- `time.ParseDuration`, in nanoseconds, and `getProtoStructFromProtoMessage` at its three messages,
-- which is the JSON mapping of protobuf.
pub record Codec : Type 0 where
  pub parse_duration : String → Option ℤ
  pub struct_of_descriptor : LocalRateLimitDescriptor → Struct
  pub struct_of_rate_limit : RateLimit → Struct
  pub struct_of_bucket : TokenBucket → Struct

-- The messages of `EnvoyFilter` in Istio's API, by what the program sets.
pub data ApplyTo : Type 0 where
  http_filter http_route : ApplyTo

pub data PatchContext : Type 0 where
  sidecar_inbound : PatchContext

-- A listener match by the names of the filter and of the filter in it; a route match by the name of
-- the virtual host, for any action.
pub data ObjectTypes : Type 0 where
  listener : String → String → ObjectTypes
  route_configuration : String → ObjectTypes

pub record ObjectMatch : Type 0 where
  pub context : PatchContext
  pub proxy_version : Option String
  pub object_types : Option ObjectTypes

pub data Operation : Type 0 where
  merge insert_before : Operation

pub record Patch : Type 0 where
  pub operation : Operation
  pub value : Struct

pub record ConfigPatch : Type 0 where
  pub apply_to : ApplyTo
  pub object_match : ObjectMatch
  pub patch : Patch

-- `contains`
unfoldable pub has_key : List String → String → Bool
has_key [] key = false
has_key (k ∷ keys) key = if k == key then true else has_key keys key

unfoldable pub create_proxy_match : String → String
create_proxy_match proxy_version = join ("^" ∷ replace_all proxy_version "." "\\." ∷ ".*" ∷ []) ""

abbrev text_field : String → String → Struct → Struct
text_field key text rest = field key (string_value text) rest

abbrev struct_field : String → Struct → Struct → Struct
struct_field key inner rest = field key (struct_value inner) rest

unfoldable pub create_filter_patch : String → ConfigPatch
unfolding create_proxy_match
create_filter_patch proxy_version = record {
  apply_to = http_filter;
  object_match = record {
    context = sidecar_inbound;
    proxy_version = some (create_proxy_match proxy_version);
    object_types =
        some (listener "envoy.filters.network.http_connection_manager" "envoy.filters.http.router");
  };
  patch = record {
    operation = insert_before;
    value = text_field "name" "envoy.filters.http.local_ratelimit" (
        struct_field "typed_config"
          (text_field "@type" "type.googleapis.com/udpa.type.v1.TypedStruct" (
            text_field "type_url"
              "type.googleapis.com/envoy.extensions.filters.http.local_ratelimit.v3.LocalRateLimit"
              (struct_field "value" (text_field "stat_prefix" "http_local_rate_limiter" no_fields)
                no_fields)))
          no_fields);
  };
}

-- `getRouteConfig`, the virtual host of a port
unfoldable pub get_route_config : String → ObjectTypes
get_route_config inbound_port = route_configuration (join ("inbound|http|" ∷ inbound_port ∷ []) "")

unfoldable pub create_route_match : String → ObjectMatch
unfolding get_route_config
create_route_match inbound_port = record {
  context = sidecar_inbound;
  proxy_version = none;
  object_types = if inbound_port == "" then none else some (get_route_config inbound_port);
}

annotated_ports : Option Workload → Option (List String) → Option (List String)
unfolding split
annotated_ports none other = other
annotated_ports (some w) other =
    some (split "," (at w.template.annotations include_inbound_ports_annotation))

-- `none` is a nil slice.
unfoldable pub get_inbound_ports :
    Deployments.Cache → Rollouts.Cache → String → String → String → Option (List String)
unfolding annotated_ports
get_inbound_ports deployments rollouts cluster_id identity env =
    annotated_ports (Deployments.get_by_cluster_identity_env deployments cluster_id identity env)
      (annotated_ports (Rollouts.get_by_cluster_identity_env rollouts cluster_id identity env) none)

-- A fraction of requests that is always the whole: a runtime key and its default.
abbrev whole : String → Struct
whole runtime_key = text_field "runtime_key" runtime_key (
    struct_field "default_value"
      (field "numerator" (number_value 100) (text_field "denominator" "HUNDRED" no_fields))
      no_fields)

-- The two `structpb.ListValue`s that the loops fill.
pub record Limits : Type 0 where
  pub rate_limits : List Value
  pub descriptors : List Value

module _ (codec : Codec) where
  abbrev pub global_bucket : TokenBucket
  global_bucket = get_token_bucket (pos 1000000) (pos 1000000) (pos 1000000000)

  unfoldable pub create_route_patch : List Value → List Value → Patch
  create_route_patch rate_limits descriptors = record {
    operation = merge;
    value =
        struct_field "route" (field "rate_limits" (list_value (list_of rate_limits)) no_fields) (
          struct_field "typed_per_filter_config"
            (struct_field "envoy.filters.http.local_ratelimit"
              (text_field "@type" "type.googleapis.com/udpa.type.v1.TypedStruct" (
                text_field "type_url"
                  "type.googleapis.com/envoy.extensions.filters.http.local_ratelimit.v3.LocalRateLimit"
                  (struct_field "value"
                    (text_field "stat_prefix" "http_local_rate_limiter" (
                      field "descriptors" (list_value (list_of descriptors)) (
                        struct_field "token_bucket" (codec.struct_of_bucket global_bucket) (
                          struct_field "filter_enabled" (whole "local_rate_limit_enabled") (
                            struct_field "filter_enforced" (whole "local_rate_limit_enforced")
                              no_fields)))))
                    no_fields)))
              no_fields)
            no_fields);
  }

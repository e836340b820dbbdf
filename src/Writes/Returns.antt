-- ===== src/Writes/Returns.antt =====
-- Which calls of a handler return.
use naavik.Common.{
  String, Bool, true, ◌&&◌, ◌||◌, List, [], ◌∷◌, Option, none, some, ◌≡◌, refl, arith, is_some,
  some_of, Bool-cases, inl, inr,
}
use naavik.Common.Table.{Table}
use naavik.Common.Types.{EventType}
use naavik.Options.{NaavikArgs, is_cluster_in_allowed_scope}
use naavik.Resources.{TrafficConfig}
use naavik.TrafficUtil.{is_disabled}
use naavik.Handlers.{Caches, Setting, Call, handle_rate_limiter, handle_virtual_service}
use naavik.RateLimits.Create.{Filter, both_lists, rate_limiting_selector}
use naavik.RateLimits.Handle.{is_delete}
use naavik.RateLimits.Clusters.{handle_rate_limiter-deletes}
use naavik.RateLimits.Applied.{handle_rate_limiter-names}
use naavik.Writes.{World, Write, writes_of, writes_of_all}
use naavik.Writes.Deletion.{for_traffic_config}

-- Every scope compiles as a pattern, and no listing of filters is nil.
pub record IsAnswering {Clients : Type 0} (world : World Clients) (params : NaavikArgs)
    : Type 0 where
  pub compiles :
      (cluster : String) → is_some (is_cluster_in_allowed_scope world.compile params cluster) ≡ true
  pub lists :
      (cluster : String) (selector : Table String)
      → is_some (world.istio.list_envoy_filters cluster selector) ≡ true

-- The configuration has an edge service and a quota group.
abbrev pub is_whole : TrafficConfig → Bool
is_whole tc = is_some tc.edge_service && is_some tc.quota_group

abbrev pub config_of : Call → TrafficConfig
config_of (handle_rate_limiter tc event_type) = tc
config_of (handle_virtual_service tc) = tc

abbrev pub all_whole : List Call → Bool
all_whole [] = true
all_whole (call ∷ calls) = is_whole (config_of call) && all_whole calls

abbrev pub configs_whole : List TrafficConfig → Bool
configs_whole [] = true
configs_whole (tc ∷ configs) = is_whole tc && configs_whole configs

both-some :
    (o p : Option (List Write))
    → is_some o ≡ true
    → is_some p ≡ true
    → is_some (both_lists o p) ≡ true
both-some none p h k = cc
both-some (some l) none h k = cc
both-some (some l) (some m) h k = refl

module _ {Clients : Type 0} (world : World Clients) (setting : Setting) (caches : Caches)
    (answers : IsAnswering world setting.params) where
  rate_limiter-returns :
      (tc : TrafficConfig) (event_type : EventType)
      → is_some tc.quota_group ≡ true
      → is_some (writes_of world setting caches (handle_rate_limiter tc event_type)) ≡ true
  unfolding writes_of
  rate_limiter-returns tc event_type h =
      let (group, q) = some_of tc.quota_group h in
      let lists = λ (cluster : String).
        some_of (world.istio.list_envoy_filters cluster (rate_limiting_selector setting.params tc))
          (answers.lists cluster (rate_limiting_selector setting.params tc)) in
      let listed : String → List Filter = λ cluster. (lists cluster).0 in
      elim (Bool-cases (is_disabled tc || is_delete event_type)) [
        | inl gone ↦
            rw
              (handle_rate_limiter-deletes world.compile world.codec world.istio setting.params
                caches world.registered tc event_type listed answers.compiles
                (λ cluster. (lists cluster).1) gone)
              refl
        | inr live ↦
            let (calls, made, names) =
              handle_rate_limiter-names world.compile world.codec world.istio setting.params caches
                world.registered tc event_type group listed answers.compiles
                (λ cluster. (lists cluster).1) q live in
            rw made refl
      ]

  virtual_service-returns :
      (tc : TrafficConfig)
      → is_some tc.edge_service ≡ true
      → is_some (writes_of world setting caches (handle_virtual_service tc)) ≡ true
  unfolding writes_of
  virtual_service-returns tc h =
      let (edge, e) = some_of tc.edge_service h in
      let services =
        for_traffic_config world.compile setting.params caches.identities caches.dependencies
          world.registered world.existing tc edge answers.compiles e in
      rw services.made refl

  call-returns :
      (call : Call)
      → is_whole (config_of call) ≡ true
      → is_some (writes_of world setting caches call) ≡ true
  call-returns (handle_rate_limiter tc event_type) h =
      rate_limiter-returns tc event_type (ground arith)
  call-returns (handle_virtual_service tc) h = virtual_service-returns tc (ground arith)

  -- Calls for configurations with an edge service and a quota group end without a panic, where every
  -- scope compiles and no listing is nil.
  pub calls-return :
      (calls : List Call)
      → all_whole calls ≡ true
      → is_some (writes_of_all world setting caches calls) ≡ true
  unfolding writes_of_all
  calls-return [] h = refl
  calls-return (call ∷ calls) h =
      both-some (writes_of world setting caches call) (writes_of_all world setting caches calls)
        (call-returns call (ground arith)) (calls-return calls (ground arith))

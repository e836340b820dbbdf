-- ===== src/Handlers/Kept.antt =====
-- What holds after `finish`, and what each turn of a trigger keeps, holds after every operation of
-- every handler.
use naavik.Common.{
  ◌==◌, ap, refl, arith, ◌++◌, String, Bool, true, false, not, List, [], ◌∷◌, Option, none, some,
  ◌≡◌, if◌then◌else◌,
}
use naavik.Common.Types.{EventType}
use naavik.Options.{is_cache_warmed_up}
use naavik.Resources
use naavik.Resources.{Object}
use naavik.Controller.Status.{
  EventProcessStatus, new_event_process_status, create_child_event, event_create_child,
}
use naavik.Handlers.{
  Call, Callback, traffic_config_on_status, Caches, Setting, StatusChan, Trail, Outcome, finish,
  start, on_cast,
}
use naavik.Handlers.TrafficConfig
use naavik.Handlers.TrafficConfig.{
  config_added, config_updated, config_deleted, calls_for, trigger_config, trigger_configs,
  and_then, with_child, configs_of, configs_of_all, trigger_traffic_config_handler_for_identity,
  finish_after, as_traffic_config, is_skipped,
}
use naavik.Handlers.Dependency
use naavik.Handlers.Dependency.{
  as_dependency, dependency_updated, trigger_all, with_destinations, new_destinations,
}
use naavik.Handlers.Workloads
use naavik.Handlers.Workloads.{
  Kind, as_service, as_workload, workload_added, workload_updated, workload_deleted, is_handled,
}
use naavik.Cache.Dependencies.{get_dependents_for_identity}

abbrev pub is_open : StatusChan → Bool
is_open none = false
is_open (some ch) = not ch.is_closed

-- A channel to which `sent` was sent, open.
abbrev pub open_with : List (EventProcessStatus Callback) → StatusChan
open_with sent = some (record { sent = sent; is_closed = false })

pub open_cases :
    (ch : StatusChan)
    → is_open ch ≡ true
    → (sent : List (EventProcessStatus Callback)) × (ch ≡ open_with sent)
open_cases none h = cc
open_cases (some ch) h =
    let e : ch.is_closed ≡ false = ground arith in
    (ch.sent, ap (λ b. some (record { sent = ch.sent; is_closed = b })) e)

-- What a turn does on an open channel.
abbrev pub created : EventProcessStatus Callback
created = record new_event_process_status {
  status = event_create_child;
  child_on_status = some traffic_config_on_status;
}

pub trigger_config-open :
    (setting : Setting) (caches : Caches) (tc : Resources.TrafficConfig) (calls : List Call)
    (sent : List (EventProcessStatus Callback)) (children : List StatusChan)
    → let trail : Trail = record {
      calls = calls;
      status_chan = open_with sent;
      children = children;
    } in
      trigger_config setting caches tc trail
      ≡ with_child trail
          (open_with (sent ++ created ∷ []))
          (config_updated setting caches tc (open_with []))
unfolding trigger_config create_child_event
trigger_config-open setting caches tc calls sent children = refl

-- A test of the trail that a loop leaves, if it does not panic.
abbrev pub holds : (Trail → Bool) → Option Trail → Bool
holds P none = false
holds P (some trail) = P trail

holds-and_then :
    (P : Trail → Bool) (o : Option Trail) (f : Trail → Option Trail)
    → ((trail : Trail) → P trail ≡ true → holds P (f trail) ≡ true)
    → holds P o ≡ true
    → holds P (and_then o f) ≡ true
holds-and_then P none f step h = cc
holds-and_then P (some trail) f step h = step trail h

-- What each turn keeps, the loops over configurations and over identities keep.
module _ (setting : Setting) (P : Trail → Bool)
    (turn : (caches : Caches) (tc : Resources.TrafficConfig) (trail : Trail)
      → P trail ≡ true
      → holds P (trigger_config setting caches tc trail) ≡ true) where
  holds-trigger_configs :
      (caches : Caches) (configs : List Resources.TrafficConfig) (trail : Trail)
      → P trail ≡ true
      → holds P (trigger_configs setting caches configs trail) ≡ true
  unfolding trigger_configs
  holds-trigger_configs caches [] trail h = h
  holds-trigger_configs caches (tc ∷ configs) trail h =
      holds-and_then P (trigger_config setting caches tc trail) _
        (λ next k. holds-trigger_configs caches configs next k) (turn caches tc trail h)

  pub holds-trigger :
      (caches : Caches) (identity : String) (trail : Trail)
      → P trail ≡ true
      → holds P (trigger_traffic_config_handler_for_identity setting caches identity trail) ≡ true
  unfolding trigger_traffic_config_handler_for_identity
  holds-trigger caches identity trail h =
      let own = configs_of caches identity in
      let others =
        configs_of_all caches (get_dependents_for_identity caches.dependencies identity) in
      holds-and_then P (trigger_configs setting caches own trail)
        (λ next. trigger_configs setting caches others next)
        (λ next k. holds-trigger_configs caches others next k)
        (holds-trigger_configs caches own trail h)

  pub holds-trigger_all :
      (caches : Caches) (identities : List String) (trail : Option Trail)
      → holds P trail ≡ true
      → holds P (trigger_all setting caches identities trail) ≡ true
  unfolding trigger_all
  holds-trigger_all caches [] trail h = h
  holds-trigger_all caches (identity ∷ identities) none h = cc
  holds-trigger_all caches (identity ∷ identities) (some trail) h =
      holds-trigger_all caches identities _ (holds-trigger caches identity trail h)

  module _ (Q : Option Outcome → Bool)
      (end : (caches : Caches) (trail : Trail)
        → P trail ≡ true
        → Q (finish caches trail) ≡ true) where
    on_cast-holds :
        {A : Type 0} (o : Option A) (skipped : Option Outcome) (f : A → Option Outcome)
        → Q skipped ≡ true
        → ((a : A) → Q (f a) ≡ true)
        → Q (on_cast o skipped f) ≡ true
    on_cast-holds none skipped f h k = h
    on_cast-holds (some a) skipped f h k = k a

    if-holds :
        (b : Bool) (x y : Option Outcome) → Q x ≡ true → Q y ≡ true → Q (if b then x else y) ≡ true
    if-holds true x y h k = h
    if-holds false x y h k = k

    finish_after-holds :
        (caches : Caches) (o : Option Trail) → holds P o ≡ true → Q (finish_after caches o) ≡ true
    finish_after-holds caches none h = cc
    finish_after-holds caches (some trail) h = end caches trail h

    module _ (ch : StatusChan) (begin : P (start ch) ≡ true) where
      pub workloads-hold :
          (kind : Kind) (cluster_id : String) (caches : Caches) (obj old : Object)
          → (Q (Workloads.added kind setting cluster_id caches obj ch) ≡ true)
            × (Q (Workloads.updated kind setting cluster_id caches obj old ch) ≡ true)
            × (Q (Workloads.deleted kind setting cluster_id caches obj ch) ≡ true)
      unfolding Workloads.added Workloads.updated Workloads.deleted workload_added workload_updated
          workload_deleted
      workloads-hold kind cluster_id caches obj old = (
        on_cast-holds (as_workload kind obj) _ _ (end caches _ begin) (λ w.
            if-holds (not (is_handled setting w)) _ _ (end caches _ begin) (
              if-holds (not (is_cache_warmed_up setting.params setting.elapsed)) _ _ (end _ _ begin)
                (finish_after-holds _ _ (holds-trigger _ _ (start ch) begin)))),
        on_cast-holds (as_workload kind obj) _ _ (end caches _ begin) (λ w.
            on_cast-holds (as_workload kind old) _ _ (end caches _ begin) (λ before.
              if-holds (not (is_handled setting w)) _ _ (end caches _ begin) (end _ _ begin))),
        on_cast-holds (as_workload kind obj) _ _ (end caches _ begin)
            (λ w. if-holds (not (is_handled setting w)) _ _ (end caches _ begin) (end _ _ begin)),
      )

      pub dependency_handler-holds :
          (caches : Caches) (obj old : Object)
          → (Q (Dependency.added caches obj ch) ≡ true)
            × (Q (Dependency.updated setting caches obj old ch) ≡ true)
            × (Q (Dependency.deleted caches obj ch) ≡ true)
      unfolding Dependency.added Dependency.updated Dependency.deleted dependency_updated
      dependency_handler-holds caches obj old = (
        on_cast-holds (as_dependency obj) _ _ (end caches _ begin)
            (λ d. if-holds (d.source == "") _ _ (end caches _ begin) (end _ _ begin)),
        on_cast-holds (as_dependency obj) _ _ (end caches _ begin) (λ d.
            let next = with_destinations caches d in
            let identities = new_destinations d (as_dependency old) in
            if-holds (d.source == "") _ _ (end caches _ begin) (
              if-holds (not (is_cache_warmed_up setting.params setting.elapsed)) _ _
                (end next _ begin)
                (finish_after-holds next (trigger_all setting next identities (some (start ch)))
                  (holds-trigger_all next identities (some (start ch)) begin)))),
        end caches _ begin,
      )

      pub services-hold :
          (cluster_id : String) (caches : Caches) (obj old : Object)
          → (Q (Workloads.service_added setting cluster_id caches obj ch) ≡ true)
            × (Q (Workloads.service_updated setting cluster_id caches obj old ch) ≡ true)
            × (Q (Workloads.service_deleted setting cluster_id caches obj ch) ≡ true)
      unfolding Workloads.service_added Workloads.service_updated Workloads.service_deleted
      services-hold cluster_id caches obj old = (
        on_cast-holds (as_service obj) _ _ (end caches _ begin) (λ s. end _ _ begin),
        on_cast-holds (as_service obj) _ _ (end caches _ begin) (λ s. end _ _ begin),
        on_cast-holds (as_service obj) _ _ (end caches _ begin) (λ s. end _ _ begin),
      )

      pub traffic_config_handler-holds :
          (caches : Caches) (obj old : Object)
          → ((tc : Resources.TrafficConfig) (event : EventType)
              → P (record (start ch) { calls = calls_for setting tc event }) ≡ true)
          → (Q (TrafficConfig.added setting caches obj ch) ≡ true)
            × (Q (TrafficConfig.updated setting caches obj old ch) ≡ true)
            × (Q (TrafficConfig.deleted setting caches obj ch) ≡ true)
      unfolding TrafficConfig.added TrafficConfig.updated TrafficConfig.deleted config_added
          config_updated config_deleted
      traffic_config_handler-holds caches obj old called = (
        on_cast-holds (as_traffic_config obj) _ _ (end caches _ begin) (λ tc.
            if-holds (is_skipped setting tc) _ _ (end caches _ begin) (end _ _ (called tc _))),
        on_cast-holds (as_traffic_config obj) _ _ (end caches _ begin) (λ tc.
            if-holds (is_skipped setting tc) _ _ (end caches _ begin) (end _ _ (called tc _))),
        on_cast-holds (as_traffic_config obj) _ _ (end caches _ begin)
            (λ tc. end _ _ (called tc _)),
      )

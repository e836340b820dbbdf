-- ===== src/Handlers/Triggers.antt =====
-- Which calls a trigger records.
use mathlib.Core.Path.{subst}
use naavik.Common.{
  String, true, List, [], ◌∷◌, ◌++◌, append_assoc, append-nil, Option, none, some, ◌≡◌, refl, sym,
  ap, if◌then◌else◌, Bool-cases, inl, inr,
}
use naavik.Common.Types.{EventType}
use naavik.Resources
use naavik.Controller.Status.{EventProcessStatus, event_skip, new_event_process_status, skip_close}
use naavik.Cache.Dependencies.{get_dependents_for_identity}
use naavik.Handlers.{Call, Callback, Caches, Setting, StatusChan, Trail, finish}
use naavik.Handlers.Kept.{open_with, created, trigger_config-open}
use naavik.Handlers.TrafficConfig.{
  config_updated, calls_for, is_skipped, trigger_configs, configs_of, configs_of_all,
  trigger_traffic_config_handler_for_identity,
}

-- The calls on an update of each configuration in turn, less those that are disabled or ignored.
abbrev pub calls_on_update : Setting → List Resources.TrafficConfig → List Call
calls_on_update setting [] = []
calls_on_update setting (tc ∷ configs) =
    (if is_skipped setting tc then [] else calls_for setting tc EventType.update)
    ++ calls_on_update setting configs

calls_on_update-append :
    (setting : Setting) (l m : List Resources.TrafficConfig)
    → calls_on_update setting (l ++ m) ≡ calls_on_update setting l ++ calls_on_update setting m
calls_on_update-append setting [] m = refl
calls_on_update-append setting (tc ∷ l) m =
    rw (calls_on_update-append setting l m)
      (sym (append_assoc _ (calls_on_update setting l) (calls_on_update setting m)))

-- The calls of a trail, if there is one.
abbrev pub calls_in : Option Trail → Option (List Call)
calls_in none = none
calls_in (some trail) = some trail.calls

abbrev skipped_after : EventProcessStatus Callback
skipped_after = record new_event_process_status { status = event_skip }

config_updated-open :
    (setting : Setting) (caches : Caches) (tc : Resources.TrafficConfig)
    → config_updated setting caches tc (open_with [])
      ≡ some (record {
        caches = caches;
        status = event_skip;
        trail = record {
          calls = if is_skipped setting tc then [] else calls_for setting tc EventType.update;
          status_chan = some (record { sent = skipped_after ∷ []; is_closed = true });
          children = [];
        };
      })
unfolding config_updated finish skip_close
config_updated-open setting caches tc = elim (Bool-cases (is_skipped setting tc)) [
  | inl e ↦ rw e refl
  | inr e ↦ rw e refl
]

-- The trail of a trigger on an open channel, by its calls: open again, with more children.
pub record IsTrailOf (o : Option Trail) (calls : List Call) : Type 0 where
  pub sent : List (EventProcessStatus Callback)
  pub children : List StatusChan
  pub is_trail :
      o ≡ some (record { calls = calls; status_chan = open_with sent; children = children })

trigger_configs-calls :
    (setting : Setting) (caches : Caches) (configs : List Resources.TrafficConfig)
    (calls : List Call) (sent : List (EventProcessStatus Callback)) (children : List StatusChan)
    → IsTrailOf
        (trigger_configs setting caches configs
          (record { calls = calls; status_chan = open_with sent; children = children }))
        (calls ++ calls_on_update setting configs)
unfolding trigger_configs
trigger_configs-calls setting caches [] calls sent children =
    rw (append-nil calls) (record { sent = sent; children = children; is_trail = refl })
trigger_configs-calls setting caches (tc ∷ configs) calls sent children =
    let now : List Call =
      if is_skipped setting tc then [] else calls_for setting tc EventType.update in
    let later : List StatusChan =
      children ++ some (record { sent = skipped_after ∷ []; is_closed = true }) ∷ [] in
    let next : Option Trail = trigger_configs setting caches configs (record {
      calls = calls ++ now;
      status_chan = open_with (sent ++ created ∷ []);
      children = later;
    }) in
    rw (trigger_config-open, config_updated-open)
      (subst (λ c. IsTrailOf next c) (append_assoc calls now (calls_on_update setting configs))
        (trigger_configs-calls setting caches configs (calls ++ now) (sent ++ created ∷ []) later))

-- On an open status channel a trigger records exactly the calls of an update of each configuration of
-- the identity and then of each one of its dependents, in that order, less those that are disabled or
-- ignored, after the calls recorded before.
pub trigger-calls :
    (setting : Setting) (caches : Caches) (identity : String) (calls : List Call)
    (sent : List (EventProcessStatus Callback)) (children : List StatusChan)
    → calls_in (
        trigger_traffic_config_handler_for_identity setting caches identity
          (record { calls = calls; status_chan = open_with sent; children = children }))
      ≡ some (
          calls
          ++ calls_on_update setting (
              configs_of caches identity
              ++ configs_of_all caches (get_dependents_for_identity caches.dependencies identity)))
unfolding trigger_traffic_config_handler_for_identity
trigger-calls setting caches identity calls sent children =
    let own = configs_of caches identity in
    let others = configs_of_all caches (get_dependents_for_identity caches.dependencies identity) in
    let first = trigger_configs-calls setting caches own calls sent children in
    let second =
      trigger_configs-calls setting caches others (calls ++ calls_on_update setting own) first.sent
        first.children in
    rw (first.is_trail, second.is_trail, calls_on_update-append)
      (ap some (append_assoc calls (calls_on_update setting own) (calls_on_update setting others)))

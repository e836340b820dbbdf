-- ===== src/Events/Whole.antt =====
-- Which configurations the calls of a round are for.
use naavik.Common.{
  String, Bool, true, false, List, [], ◌∷◌, ◌++◌, Option, none, some, ◌≡◌, refl, arith,
  if◌then◌else◌,
}
use naavik.Common.Types.{EventType}
use naavik.Resources.{TrafficConfig}
use naavik.Cache.Dependencies.{get_dependents_for_identity}
use naavik.Controller.Status.{EventStatus, skip_close, new_event_process_status, create_child_event}
use naavik.Handlers.{
  Call, Caches, Setting, StatusChan, Trail, Outcome, finish, start, on_cast, closed_with,
  traffic_config_on_status,
}
use naavik.Handlers.TrafficConfig.{
  calls_for, config_updated, is_skipped, with_child, run_child, trigger_config, trigger_configs,
  and_then, configs_of, configs_of_all, trigger_traffic_config_handler_for_identity, finish_after,
}
use naavik.Handlers.Dependency.{trigger_all, trigger_next}
use naavik.Writes.Returns.{is_whole, all_whole, configs_whole}

abbrev pub trail_whole : Option Trail → Bool
trail_whole none = true
trail_whole (some trail) = all_whole trail.calls

abbrev pub outcome_whole : Option Outcome → Bool
outcome_whole none = true
outcome_whole (some outcome) = all_whole outcome.trail.calls

-- Every cached configuration has an edge service and a quota group.
pub record IsComplete (caches : Caches) : Type 0 where
  pub whole : (identity : String) → configs_whole (configs_of caches identity) ≡ true

all_whole-append :
    (l m : List Call) → all_whole l ≡ true → all_whole m ≡ true → all_whole (l ++ m) ≡ true
all_whole-append [] m h k = k
all_whole-append (call ∷ l) m h k =
    let rest = all_whole-append l m (ground arith) k in ground (arith, rest)

configs_whole-append :
    (l m : List TrafficConfig)
    → configs_whole l ≡ true
    → configs_whole m ≡ true
    → configs_whole (l ++ m) ≡ true
configs_whole-append [] m h k = k
configs_whole-append (tc ∷ l) m h k =
    let rest = configs_whole-append l m (ground arith) k in ground (arith, rest)

closed_with-whole :
    (caches : Caches) (trail : Trail) (o : Option (EventStatus × StatusChan))
    → all_whole trail.calls ≡ true
    → outcome_whole (closed_with caches trail o) ≡ true
closed_with-whole caches trail none h = refl
closed_with-whole caches trail (some (status, ch)) h = h

pub finish-whole :
    (caches : Caches) (trail : Trail)
    → all_whole trail.calls ≡ true
    → outcome_whole (finish caches trail) ≡ true
unfolding finish
finish-whole caches trail h =
    closed_with-whole caches trail (skip_close new_event_process_status trail.status_chan) h

pub finish_after-whole :
    (caches : Caches) (o : Option Trail)
    → trail_whole o ≡ true
    → outcome_whole (finish_after caches o) ≡ true
finish_after-whole caches none h = refl
finish_after-whole caches (some trail) h = finish-whole caches trail h

pub if-whole :
    (b : Bool) (x y : Option Outcome)
    → outcome_whole x ≡ true
    → outcome_whole y ≡ true
    → outcome_whole (if b then x else y) ≡ true
if-whole true x y h k = h
if-whole false x y h k = k

pub on_cast-whole :
    {A : Type 0} (o : Option A) (skipped : Option Outcome) (f : A → Option Outcome)
    → outcome_whole skipped ≡ true
    → ((a : A) → o ≡ some a → outcome_whole (f a) ≡ true)
    → outcome_whole (on_cast o skipped f) ≡ true
on_cast-whole none skipped f h k = h
on_cast-whole (some a) skipped f h k = k a refl

and_then-whole :
    (o : Option Trail) (f : Trail → Option Trail)
    → ((trail : Trail) → all_whole trail.calls ≡ true → trail_whole (f trail) ≡ true)
    → trail_whole o ≡ true
    → trail_whole (and_then o f) ≡ true
and_then-whole none f step h = refl
and_then-whole (some trail) f step h = step trail h

with_child-whole :
    (trail : Trail) (parent : StatusChan) (o : Option Outcome)
    → all_whole trail.calls ≡ true
    → outcome_whole o ≡ true
    → trail_whole (with_child trail parent o) ≡ true
with_child-whole trail parent none h k = refl
with_child-whole trail parent (some outcome) h k =
    all_whole-append trail.calls outcome.trail.calls h k

module _ (setting : Setting) where
  pub calls_for-whole :
      (tc : TrafficConfig) (event_type : EventType)
      → is_whole tc ≡ true
      → all_whole (calls_for setting tc event_type) ≡ true
  unfolding calls_for
  calls_for-whole tc event_type h = ground arith

  config_updated-whole :
      (caches : Caches) (tc : TrafficConfig) (ch : StatusChan)
      → is_whole tc ≡ true
      → outcome_whole (config_updated setting caches tc ch) ≡ true
  unfolding config_updated
  config_updated-whole caches tc ch h =
      if-whole (is_skipped setting tc) _ _ (finish-whole caches (start ch) refl)
        (finish-whole caches _ (calls_for-whole tc EventType.update h))

  run_child-whole :
      (caches : Caches) (tc : TrafficConfig) (trail : Trail)
      (created : Option (StatusChan × StatusChan))
      → is_whole tc ≡ true
      → all_whole trail.calls ≡ true
      → trail_whole (run_child setting caches tc trail created) ≡ true
  run_child-whole caches tc trail none h k = refl
  run_child-whole caches tc trail (some (none, parent)) h k = refl
  run_child-whole caches tc trail (some (some child, parent)) h k =
      with_child-whole trail parent (config_updated setting caches tc (some child)) k
        (config_updated-whole caches tc (some child) h)

  trigger_configs-whole :
      (caches : Caches) (configs : List TrafficConfig) (trail : Trail)
      → configs_whole configs ≡ true
      → all_whole trail.calls ≡ true
      → trail_whole (trigger_configs setting caches configs trail) ≡ true
  unfolding trigger_configs trigger_config
  trigger_configs-whole caches [] trail h k = k
  trigger_configs-whole caches (tc ∷ configs) trail h k =
      and_then-whole
        (run_child setting caches tc trail (
          create_child_event new_event_process_status (some traffic_config_on_status)
            trail.status_chan))
        (λ next. trigger_configs setting caches configs next)
        (λ next made. trigger_configs-whole caches configs next (ground arith) made)
        (run_child-whole caches tc trail _ (ground arith) k)

  module _ (caches : Caches) (complete : IsComplete caches) where
    configs_of_all-whole :
        (dependents : List String) → configs_whole (configs_of_all caches dependents) ≡ true
    unfolding configs_of_all
    configs_of_all-whole [] = refl
    configs_of_all-whole (dependent ∷ dependents) =
        configs_whole-append (configs_of caches dependent) (configs_of_all caches dependents)
          (complete.whole dependent) (configs_of_all-whole dependents)

    pub trigger-whole :
        (identity : String) (trail : Trail)
        → all_whole trail.calls ≡ true
        → trail_whole (trigger_traffic_config_handler_for_identity setting caches identity trail)
          ≡ true
    unfolding trigger_traffic_config_handler_for_identity
    trigger-whole identity trail h =
        let others =
          configs_of_all caches (get_dependents_for_identity caches.dependencies identity) in
        and_then-whole (trigger_configs setting caches (configs_of caches identity) trail)
          (λ next. trigger_configs setting caches others next)
          (λ next made. trigger_configs-whole caches others next (configs_of_all-whole _) made)
          (trigger_configs-whole caches (configs_of caches identity) trail (complete.whole identity)
            h)

    trigger_next-whole :
        (identity : String) (trail : Option Trail)
        → trail_whole trail ≡ true
        → trail_whole (trigger_next setting caches identity trail) ≡ true
    trigger_next-whole identity none h = refl
    trigger_next-whole identity (some trail) h = trigger-whole identity trail h

    pub trigger_all-whole :
        (identities : List String) (trail : Option Trail)
        → trail_whole trail ≡ true
        → trail_whole (trigger_all setting caches identities trail) ≡ true
    unfolding trigger_all
    trigger_all-whole [] trail h = h
    trigger_all-whole (identity ∷ identities) trail h =
        trigger_all-whole identities (trigger_next setting caches identity trail)
          (trigger_next-whole identity trail h)

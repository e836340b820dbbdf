-- ===== src/Handlers/Reports.antt =====
-- How the runs of handlers report, with their calls recorded and not made.
use naavik.Common.{
  String, Bool, true, false, ◌&&◌, List, [], ◌∷◌, ◌++◌, Option, none, some, ◌≡◌, refl, arith,
  Bool-cases, inl, inr,
}
use naavik.Resources
use naavik.Resources.{Object}
use naavik.Controller.Status.{event_skip, EventProcessStatus, new_event_process_status, skip_close}
use naavik.Controller.Loop.{is_skip}
use naavik.Handlers.{Call, Callback, Caches, Setting, StatusChan, Trail, Outcome, finish, start}
use naavik.Handlers.Kept.{
  is_open, open_with, open_cases, created, trigger_config-open, holds, workloads-hold,
  dependency_handler-holds, traffic_config_handler-holds,
}
use naavik.Handlers.TrafficConfig
use naavik.Handlers.TrafficConfig.{config_updated, trigger_config, is_skipped}
use naavik.Handlers.Dependency
use naavik.Handlers.Workloads
use naavik.Handlers.Workloads.{Kind}

abbrev ends_in_skip : List (EventProcessStatus Callback) → Bool
ends_in_skip [] = false
ends_in_skip (eps ∷ []) = is_skip eps.status
ends_in_skip (eps ∷ next ∷ sent) = ends_in_skip (next ∷ sent)

ends_in_skip-append :
    (sent : List (EventProcessStatus Callback)) (eps : EventProcessStatus Callback)
    → ends_in_skip (sent ++ eps ∷ []) ≡ is_skip eps.status
ends_in_skip-append [] eps = refl
ends_in_skip-append (x ∷ []) eps = refl
ends_in_skip-append (x ∷ y ∷ sent) eps = ends_in_skip-append (y ∷ sent) eps

-- Closed after a skip.
abbrev pub is_done : StatusChan → Bool
is_done none = false
is_done (some ch) = ch.is_closed && ends_in_skip ch.sent

abbrev pub all_done : List StatusChan → Bool
all_done [] = true
all_done (ch ∷ children) = is_done ch && all_done children

all_done-append : (l m : List StatusChan) → all_done (l ++ m) ≡ (all_done l && all_done m)
all_done-append [] m = refl
all_done-append (ch ∷ l) m = ground (arith, all_done-append l m)

-- No panic, the status of a skip, and the channels of the event and of its children done.
abbrev pub is_reported : Option Outcome → Bool
is_reported none = false
is_reported (some o) = is_skip o.status && is_done o.trail.status_chan && all_done o.trail.children

abbrev pub is_ready : Trail → Bool
is_ready trail = is_open trail.status_chan && all_done trail.children

finish-reports_at :
    (caches : Caches) (calls : List Call) (ch : StatusChan) (children : List StatusChan)
    → is_open ch ≡ true
    → all_done children ≡ true
    → is_reported (finish caches (record { calls = calls; status_chan = ch; children = children }))
      ≡ true
unfolding finish skip_close new_event_process_status
finish-reports_at caches calls none children h k = cc
finish-reports_at caches calls (some ch) children h k =
    let skipped : EventProcessStatus Callback = record new_event_process_status {
      status = event_skip;
    } in
    ground (arith, ends_in_skip-append ch.sent skipped)

pub finish-reports :
    (caches : Caches) (trail : Trail)
    → is_ready trail ≡ true
    → is_reported (finish caches trail) ≡ true
finish-reports caches trail h =
    finish-reports_at caches trail.calls trail.status_chan trail.children (ground arith)
      (ground arith)

pub config_updated-reports :
    (setting : Setting) (caches : Caches) (tc : Resources.TrafficConfig) (ch : StatusChan)
    → is_open ch ≡ true
    → is_reported (config_updated setting caches tc ch) ≡ true
unfolding config_updated
config_updated-reports setting caches tc ch h = elim (Bool-cases (is_skipped setting tc)) [
  | inl e ↦ rw e (finish-reports caches (start ch) (ground arith))
  | inr e ↦ rw e (finish-reports caches _ (ground arith))
]

with_child-ready :
    (trail : Trail) (parent : StatusChan) (o : Option Outcome)
    → is_open parent ≡ true
    → all_done trail.children ≡ true
    → is_reported o ≡ true
    → holds is_ready (TrafficConfig.with_child trail parent o) ≡ true
with_child-ready trail parent none h k r = cc
with_child-ready trail parent (some o) h k r =
    ground (arith, all_done-append trail.children (o.trail.status_chan ∷ []))

trigger_config-ready_at :
    (setting : Setting) (caches : Caches) (tc : Resources.TrafficConfig) (calls : List Call)
    (ch : StatusChan) (children : List StatusChan)
    → is_open ch ≡ true
    → all_done children ≡ true
    → holds is_ready (
        trigger_config setting caches tc
          (record { calls = calls; status_chan = ch; children = children }))
      ≡ true
trigger_config-ready_at setting caches tc calls ch children h k =
    let (sent, e) = open_cases ch h in
    rw (e, trigger_config-open)
      (with_child-ready
        (record { calls = calls; status_chan = open_with sent; children = children })
        (open_with (sent ++ created ∷ [])) (config_updated setting caches tc (open_with [])) refl k
        (config_updated-reports setting caches tc (open_with []) refl))

pub trigger_config-ready :
    (setting : Setting) (caches : Caches) (tc : Resources.TrafficConfig) (trail : Trail)
    → is_ready trail ≡ true
    → holds is_ready (trigger_config setting caches tc trail) ≡ true
trigger_config-ready setting caches tc trail h =
    trigger_config-ready_at setting caches tc trail.calls trail.status_chan trail.children
      (ground arith) (ground arith)

-- Each operation of the TrafficConfig handler, on any objects and an open status channel, with its
-- calls recorded, returns the status of a skip, and leaves the channel closed after a skip.
pub traffic_config_handler-reports :
    (setting : Setting) (caches : Caches) (obj old : Object) (ch : StatusChan)
    → is_open ch ≡ true
    → (is_reported (TrafficConfig.added setting caches obj ch) ≡ true)
      × (is_reported (TrafficConfig.updated setting caches obj old ch) ≡ true)
      × (is_reported (TrafficConfig.deleted setting caches obj ch) ≡ true)
traffic_config_handler-reports setting caches obj old ch h =
    traffic_config_handler-holds setting is_ready (trigger_config-ready setting) is_reported
      finish-reports ch (ground arith) caches obj old (λ tc event. ground arith)

-- Each operation of the dependency handler, on any objects and an open status channel, with its
-- calls recorded, returns the status of a skip, and leaves closed after a skip its channel and those of the
-- child events that it triggered.
pub dependency_handler-reports :
    (setting : Setting) (caches : Caches) (obj old : Object) (ch : StatusChan)
    → is_open ch ≡ true
    → (is_reported (Dependency.added caches obj ch) ≡ true)
      × (is_reported (Dependency.updated setting caches obj old ch) ≡ true)
      × (is_reported (Dependency.deleted caches obj ch) ≡ true)
dependency_handler-reports setting caches obj old ch h =
    dependency_handler-holds setting is_ready (trigger_config-ready setting) is_reported
      finish-reports ch (ground arith) caches obj old

-- Each operation of the deployment and of the rollout handler, on any objects and an open status
-- channel, with its calls recorded, returns the status of a skip, and leaves closed after a skip its channel
-- and those of the child events that it triggered.
pub workload_handlers-report :
    (kind : Kind) (setting : Setting) (cluster_id : String) (caches : Caches) (obj old : Object)
    (ch : StatusChan)
    → is_open ch ≡ true
    → (is_reported (Workloads.added kind setting cluster_id caches obj ch) ≡ true)
      × (is_reported (Workloads.updated kind setting cluster_id caches obj old ch) ≡ true)
      × (is_reported (Workloads.deleted kind setting cluster_id caches obj ch) ≡ true)
workload_handlers-report kind setting cluster_id caches obj old ch h =
    workloads-hold setting is_ready (trigger_config-ready setting) is_reported finish-reports ch
      (ground arith) kind cluster_id caches obj old

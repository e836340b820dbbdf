-- ===== src/Handlers/ReadOnly.antt =====
-- Nothing is written to a cluster in read-only mode, nor before the caches are warm.
use naavik.Common.{
  String, Bool, true, false, not, ◌&&◌, ◌||◌, List, [], ◌∷◌, ◌++◌, Option, none, some, ◌≡◌, refl,
  arith, Bool-cases, inl, inr, is_empty,
}
use naavik.Common.Types.{EventType}
use naavik.Resources
use naavik.Resources.{Object}
use naavik.Options.{is_cache_warmed_up}
use naavik.Controller.Status.{skip_close}
use naavik.Handlers.{Call, Caches, Setting, StatusChan, Trail, Outcome, finish, start}
use naavik.Handlers.Kept.{
  is_open, open_with, open_cases, created, trigger_config-open, holds, workloads-hold,
  dependency_handler-holds, traffic_config_handler-holds,
}
use naavik.Handlers.TrafficConfig
use naavik.Handlers.TrafficConfig.{calls_for, config_updated, trigger_config, is_skipped}
use naavik.Handlers.Dependency
use naavik.Handlers.Workloads
use naavik.Handlers.Workloads.{Kind}

-- The lease is read-only, or the caches are not warm yet.
abbrev pub is_quiet : Setting → Bool
is_quiet setting = setting.is_read_only || not (is_cache_warmed_up setting.params setting.elapsed)

-- The run ended without a panic, and it made no call that writes to a cluster.
abbrev pub is_silent : Option Outcome → Bool
is_silent none = false
is_silent (some o) = is_empty o.trail.calls

abbrev pub is_still : Trail → Bool
is_still trail = is_open trail.status_chan && is_empty trail.calls

pub calls_for-quiet :
    (setting : Setting) (tc : Resources.TrafficConfig) (event : EventType)
    → is_quiet setting ≡ true
    → calls_for setting tc event ≡ []
unfolding calls_for
calls_for-quiet setting tc event q = ground arith

finish-silent_at :
    (caches : Caches) (calls : List Call) (ch : StatusChan) (children : List StatusChan)
    → is_open ch ≡ true
    → is_empty calls ≡ true
    → is_silent (finish caches (record { calls = calls; status_chan = ch; children = children }))
      ≡ true
unfolding finish skip_close
finish-silent_at caches calls none children h k = cc
finish-silent_at caches calls (some ch) children h k = ground arith

pub finish-silent :
    (caches : Caches) (trail : Trail)
    → is_still trail ≡ true
    → is_silent (finish caches trail) ≡ true
finish-silent caches trail h =
    finish-silent_at caches trail.calls trail.status_chan trail.children (ground arith)
      (ground arith)

config_updated-silent :
    (setting : Setting) (caches : Caches) (tc : Resources.TrafficConfig) (ch : StatusChan)
    → is_quiet setting ≡ true
    → is_open ch ≡ true
    → is_silent (config_updated setting caches tc ch) ≡ true
unfolding config_updated
config_updated-silent setting caches tc ch q h = elim (Bool-cases (is_skipped setting tc)) [
  | inl e ↦ rw e (finish-silent caches (start ch) (ground arith))
  | inr e ↦
      rw (e, calls_for-quiet setting tc EventType.update q)
        (finish-silent caches (start ch) (ground arith))
]

with_child-still :
    (trail : Trail) (parent : StatusChan) (o : Option Outcome)
    → is_open parent ≡ true
    → is_empty trail.calls ≡ true
    → is_silent o ≡ true
    → holds is_still (TrafficConfig.with_child trail parent o) ≡ true
with_child-still trail parent none h k r = cc
with_child-still trail parent (some o) h k r = empty_append trail.calls o.trail.calls h k r
  where
    empty_append :
        (l m : List Call)
        → is_open parent ≡ true
        → is_empty l ≡ true
        → is_empty m ≡ true
        → (is_open parent && is_empty (l ++ m)) ≡ true
    empty_append [] m h k r = ground arith
    empty_append (x ∷ l) m h k r = cc

trigger_config-still_at :
    (setting : Setting) (caches : Caches) (tc : Resources.TrafficConfig) (calls : List Call)
    (ch : StatusChan) (children : List StatusChan)
    → is_quiet setting ≡ true
    → is_open ch ≡ true
    → is_empty calls ≡ true
    → holds is_still (
        trigger_config setting caches tc
          (record { calls = calls; status_chan = ch; children = children }))
      ≡ true
trigger_config-still_at setting caches tc calls ch children q h k =
    let (sent, e) = open_cases ch h in
    rw (e, trigger_config-open)
      (with_child-still
        (record { calls = calls; status_chan = open_with sent; children = children })
        (open_with (sent ++ created ∷ [])) (config_updated setting caches tc (open_with [])) refl k
        (config_updated-silent setting caches tc (open_with []) q refl))

trigger_config-still :
    (setting : Setting) (caches : Caches) (tc : Resources.TrafficConfig) (trail : Trail)
    → is_quiet setting ≡ true
    → is_still trail ≡ true
    → holds is_still (trigger_config setting caches tc trail) ≡ true
trigger_config-still setting caches tc trail q h =
    trigger_config-still_at setting caches tc trail.calls trail.status_chan trail.children q
      (ground arith) (ground arith)

pub still_turn :
    (setting : Setting)
    → is_quiet setting ≡ true
    → (caches : Caches) (tc : Resources.TrafficConfig) (trail : Trail) → is_still trail ≡ true
    → holds is_still (trigger_config setting caches tc trail) ≡ true
still_turn setting q caches tc trail k = trigger_config-still setting caches tc trail q k

-- In read-only mode, or before the caches are warm, each operation of the TrafficConfig, the
-- dependency, and the deployment and rollout handlers, on any objects and an open status channel,
-- ends without a panic and without a call of `HandleRateLimiter` or of
-- `HandleVirtualServiceForTrafficConfig`.
pub handlers-silent :
    (kind : Kind) (setting : Setting) (cluster_id : String) (caches : Caches) (obj old : Object)
    (ch : StatusChan)
    → is_quiet setting ≡ true
    → is_open ch ≡ true
    → ((is_silent (TrafficConfig.added setting caches obj ch) ≡ true)
        × (is_silent (TrafficConfig.updated setting caches obj old ch) ≡ true)
        × (is_silent (TrafficConfig.deleted setting caches obj ch) ≡ true))
      × ((is_silent (Dependency.added caches obj ch) ≡ true)
          × (is_silent (Dependency.updated setting caches obj old ch) ≡ true)
          × (is_silent (Dependency.deleted caches obj ch) ≡ true))
      × ((is_silent (Workloads.added kind setting cluster_id caches obj ch) ≡ true)
          × (is_silent (Workloads.updated kind setting cluster_id caches obj old ch) ≡ true)
          × (is_silent (Workloads.deleted kind setting cluster_id caches obj ch) ≡ true))
handlers-silent kind setting cluster_id caches obj old ch q h = (
  traffic_config_handler-holds setting is_still (still_turn setting q) is_silent finish-silent ch
      (ground arith) caches obj old
      (λ tc event. rw (calls_for-quiet setting tc event q) (ground arith)),
  dependency_handler-holds setting is_still (still_turn setting q) is_silent finish-silent ch
      (ground arith) caches obj old,
  workloads-hold setting is_still (still_turn setting q) is_silent finish-silent ch (ground arith)
      kind cluster_id caches obj old,
)

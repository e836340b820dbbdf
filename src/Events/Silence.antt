-- ===== src/Events/Silence.antt =====
-- The calls of rounds, and of a replica that may not write.
use naavik.Common.{true, List, [], ◌∷◌, ◌++◌, Option, none, some, ◌≡◌, refl, is_empty}
use naavik.Handlers.{Call, Caches, Setting, Outcome}
use naavik.Handlers.ReadOnly.{
  is_quiet, is_silent, is_still, still_turn, finish-silent, calls_for-quiet,
}
use naavik.Handlers.Reports.{is_ready, is_reported, trigger_config-ready, finish-reports}
use naavik.Events.{Delegate, Queued, Keys, process_event}
use naavik.Events.Keeps.{process_event-holds}
use naavik.Events.Steps.{
  State, Step, Reach, at_start, then_step, object_added, object_updated, object_deleted,
  item_processed, enqueue, process_next_item,
}

-- The round of any item, with its calls recorded and not made, ends with the status of a skip, and
-- with its status channel and those of its children closed after a skip.
pub process_event-reports :
    (delegate : Delegate) (setting : Setting) (caches : Caches) (item : Queued)
    → is_reported (process_event delegate setting caches item) ≡ true
process_event-reports delegate setting caches item =
    process_event-holds setting is_ready (trigger_config-ready setting) is_reported finish-reports
      refl (λ tc event. refl) delegate caches item

some_outcome :
    (o : Option Outcome) → is_reported o ≡ true → (outcome : Outcome) × (o ≡ some outcome)
some_outcome none h = cc
some_outcome (some outcome) h = (outcome, refl)

pub process_event-runs :
    (delegate : Delegate) (setting : Setting) (caches : Caches) (item : Queued)
    → (outcome : Outcome) × (process_event delegate setting caches item ≡ some outcome)
process_event-runs delegate setting caches item =
    some_outcome _ (process_event-reports delegate setting caches item)

process_event-silent :
    (delegate : Delegate) (setting : Setting) (caches : Caches) (item : Queued)
    → is_quiet setting ≡ true
    → is_silent (process_event delegate setting caches item) ≡ true
process_event-silent delegate setting caches item q =
    process_event-holds setting is_still (still_turn setting q) is_silent finish-silent refl
      (λ tc event. rw (calls_for-quiet setting tc event q) refl) delegate caches item

append_none :
    (calls : List Call) (o : Option Outcome) (outcome : Outcome)
    → is_empty calls ≡ true
    → is_silent o ≡ true
    → o ≡ some outcome
    → is_empty (calls ++ outcome.trail.calls) ≡ true
append_none [] o outcome h k e = rw e at k
append_none (call ∷ calls) o outcome h k e = cc

module _ (keys : Keys) (settings : Setting → Type 0)
    (quiet : (setting : Setting) → settings setting → is_quiet setting ≡ true) where
  Step-silent :
      {r s : State} → Step keys settings r s → is_empty r.calls ≡ true → is_empty s.calls ≡ true
  unfolding enqueue process_next_item
  Step-silent {r} (object_added delegate obj item e) h = h
  Step-silent {r} (object_updated delegate old_obj new_obj item e) h = h
  Step-silent {r} (object_deleted delegate obj item e) h = h
  Step-silent {r} (item_processed before later delegate item setting outcome allowed split e) h =
      append_none r.calls _ outcome h
        (process_event-silent delegate setting r.caches item (quiet setting allowed)) e

  -- Where each handler runs in read-only mode or before the caches are warm, no state that the
  -- program reaches, by any events and any order of rounds, has made a call of `HandleRateLimiter`
  -- or of `HandleVirtualServiceForTrafficConfig`.
  pub Reach-silent : {r : State} → Reach keys settings r → is_empty r.calls ≡ true
  Reach-silent at_start = refl
  Reach-silent (then_step before step) = Step-silent step (Reach-silent before)

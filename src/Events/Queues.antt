-- ===== src/Events/Queues.antt =====
-- What a round leaves in the queue of its controller.

use naavik.Common.{
  Bool, true, false, ◌&&◌, ◌||◌, List, [], ◌∷◌, ◌++◌, append-nil, Option, none, some, ◌≡◌, refl,
  arith, Bool-cases, inl, inr,
}
use naavik.Resources
use naavik.Controller.Status.{EventProcessStatus, skip_close}
use naavik.Controller.Loop.{is_skip, is_create_child, handle_status, handle_event, adds}
use naavik.Handlers.{Call, Callback, Caches, Setting, StatusChan, Trail, Outcome, finish}
use naavik.Handlers.TrafficConfig
use naavik.Handlers.TrafficConfig.{config_updated, trigger_config}
use naavik.Handlers.Kept.{is_open, open_with, open_cases, created, trigger_config-open, holds}
use naavik.Handlers.Reports.{is_reported, config_updated-reports}
use naavik.Events.{Delegate, Queued, process_event}
use naavik.Events.Keeps.{process_event-holds}
use naavik.Events.Steps.{State, sent_on, requeued, process_next_item}

-- Only children and skips were sent.
abbrev is_plain : List (EventProcessStatus Callback) → Bool
is_plain [] = true
is_plain (eps ∷ sent) = (is_create_child eps.status || is_skip eps.status) && is_plain sent

abbrev is_plain_trail : Trail → Bool
is_plain_trail trail = is_open trail.status_chan && is_plain (sent_on trail.status_chan)

abbrev is_plain_outcome : Option Outcome → Bool
is_plain_outcome none = false
is_plain_outcome (some o) = is_plain (sent_on o.trail.status_chan)

is_plain-append :
    (sent : List (EventProcessStatus Callback)) (eps : EventProcessStatus Callback)
    → is_plain sent ≡ true
    → (is_create_child eps.status || is_skip eps.status) ≡ true
    → is_plain (sent ++ eps ∷ []) ≡ true
is_plain-append [] eps h k = ground arith
is_plain-append (x ∷ sent) eps h k =
    let rest = is_plain-append sent eps (ground arith) k in ground (arith, rest)

finish-plain_open :
    (caches : Caches) (calls : List Call) (sent : List (EventProcessStatus Callback))
    (children : List StatusChan)
    → is_plain sent ≡ true
    → is_plain_outcome (
        finish caches (record { calls = calls; status_chan = open_with sent; children = children }))
      ≡ true
unfolding finish skip_close
finish-plain_open caches calls sent children k = is_plain-append sent _ k refl

finish-plain_at :
    (caches : Caches) (calls : List Call) (ch : StatusChan) (children : List StatusChan)
    → is_open ch ≡ true
    → is_plain (sent_on ch) ≡ true
    → is_plain_outcome
        (finish caches (record { calls = calls; status_chan = ch; children = children }))
      ≡ true
finish-plain_at caches calls ch children h k =
    let (sent, e) = open_cases ch h in
    rw e (finish-plain_open caches calls sent children (rw e at k))

with_child-plain :
    (trail : Trail) (sent : List (EventProcessStatus Callback)) (o : Option Outcome)
    → is_plain sent ≡ true
    → is_reported o ≡ true
    → holds is_plain_trail (TrafficConfig.with_child trail (open_with (sent ++ created ∷ [])) o)
      ≡ true
with_child-plain trail sent none h r = cc
with_child-plain trail sent (some o) h r = is_plain-append sent created h refl

trigger_config-plain_at :
    (setting : Setting) (caches : Caches) (tc : Resources.TrafficConfig) (calls : List Call)
    (ch : StatusChan) (children : List StatusChan)
    → is_open ch ≡ true
    → is_plain (sent_on ch) ≡ true
    → holds is_plain_trail (
        trigger_config setting caches tc
          (record { calls = calls; status_chan = ch; children = children }))
      ≡ true
trigger_config-plain_at setting caches tc calls ch children h k =
    let (sent, e) = open_cases ch h in
    rw (e, trigger_config-open)
      (with_child-plain
        (record { calls = calls; status_chan = open_with sent; children = children }) sent
        (config_updated setting caches tc (open_with [])) (rw e at k)
        (config_updated-reports setting caches tc (open_with []) refl))

process_event-plain :
    (delegate : Delegate) (setting : Setting) (caches : Caches) (item : Queued)
    → is_plain_outcome (process_event delegate setting caches item) ≡ true
process_event-plain delegate setting caches item =
    process_event-holds setting is_plain_trail
      (λ caches tc trail h.
        trigger_config-plain_at setting caches tc trail.calls trail.status_chan trail.children
          (ground arith) (ground arith))
      is_plain_outcome
      (λ caches trail h.
        finish-plain_at caches trail.calls trail.status_chan trail.children (ground arith)
          (ground arith))
      refl (λ tc event. refl) delegate caches item

handle_status-plain :
    (item : Queued) (sent : List (EventProcessStatus Callback))
    → is_plain sent ≡ true
    → adds (handle_status item sent).1 ≡ 0
unfolding handle_status handle_event
handle_status-plain item [] h = refl
handle_status-plain item (eps ∷ sent) h = elim (Bool-cases (is_create_child eps.status)) [
  | inl child ↦ rw child (handle_status-plain item sent (ground arith))
  | inr other ↦
      let skip : is_skip eps.status ≡ true = ground arith in
      rw (other, skip) (handle_status-plain item sent (ground arith))
]

shrunk :
    (r : State) (others : List (Delegate × Queued)) (delegate : Delegate) (item : Queued)
    (o : Option Outcome)
    → is_plain_outcome o ≡ true
    → (outcome : Outcome) × (o ≡ some outcome)
      × ((process_next_item r others delegate item outcome).queue ≡ others)
unfolding process_next_item requeued
shrunk r others delegate item none h = cc
shrunk r others delegate item (some outcome) h =
    let e = handle_status-plain item (sent_on outcome.trail.status_chan) h in
    (outcome, refl, rw e (append-nil others))

-- The round of any item, with its calls recorded and not made, leaves in the queue exactly the items
-- that waited beside it.
pub process_next_item-queue :
    (r : State) (others : List (Delegate × Queued)) (delegate : Delegate) (item : Queued)
    (setting : Setting)
    → (outcome : Outcome) × (process_event delegate setting r.caches item ≡ some outcome)
      × ((process_next_item r others delegate item outcome).queue ≡ others)
process_next_item-queue r others delegate item setting =
    shrunk r others delegate item (process_event delegate setting r.caches item)
      (process_event-plain delegate setting r.caches item)

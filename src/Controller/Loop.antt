-- ===== src/Controller/Loop.antt =====
-- internal/controller/controller.go: `handleStatus`, `triggerOnStatusCallback`, and the round of an
-- item through the queue (`processNextItem`, `processItem`). Client-go's queue is not under the
-- repository: what the model uses of it is that an item that was added again runs again.
use mathlib.Core.Option
use naavik.Common.{
  nat_eq, zero, ℕ, suc, String, Bool, true, false, not, ◌&&◌, List, [], ◌∷◌, ◌++◌, Option, none,
  some, ltb, leb, if◌then◌else◌,
}
use naavik.Common.Types.{EventType}
use naavik.Controller.Status.{
  EventStatus, event_create_child, event_skip, event_max_retry_reached, event_completed,
  event_failure, event_partial_completed, EventProcessStatus,
}

-- `InformerCacheObj`, less its times. The channel of a run is the list that `handle_status` is given.
pub record Item (Callback Obj : Type 0) : Type 0 where
  pub key : String
  pub event_type : EventType
  pub obj : Obj
  pub old_obj : Option Obj
  pub retry_count : ℕ
  pub on_status_override : Option Callback

-- What `handleStatus` does to the outside, in order. A callback of `none` is the delegator's own;
-- a delay of `none` is `queue.Add`.
pub data Effect (Callback Obj : Type 0) : Type 0 where
  on_status : Option Callback → EventProcessStatus Callback → Effect Callback Obj
  queue_add : Option ℕ → Effect Callback Obj
  start_child : Item Callback Obj → Effect Callback Obj

abbrev pub is_create_child : EventStatus → Bool
is_create_child event_create_child = true
is_create_child _ = false

abbrev pub is_skip : EventStatus → Bool
is_skip event_skip = true
is_skip _ = false

abbrev pub is_final : EventStatus → Bool
is_final event_completed = true
is_final event_failure = true
is_final event_partial_completed = true
is_final _ = false

abbrev pub Trace : Type 0 → Type 0 → Type 0
Trace Callback Obj = List (Effect Callback Obj)

abbrev delay : ℕ → Option ℕ
delay after = if ltb 0 after then some after else none

abbrev pub for_type {ℓ} : {A : Type ℓ} → EventType → A → A → A → A
for_type EventType.add added updated deleted = added
for_type EventType.update added updated deleted = updated
for_type EventType.delete added updated deleted = deleted

module _ {Callback Obj : Type 0} where
  -- `triggerOnStatusCallback`
  abbrev trigger_on_status_callback :
      Item Callback Obj → EventProcessStatus Callback → Effect Callback Obj
  trigger_on_status_callback item eps = on_status item.on_status_override eps

  abbrev child_of : Item Callback Obj → EventProcessStatus Callback → Item Callback Obj
  child_of item eps = record item { on_status_override = eps.child_on_status }

  -- One turn of the loop over the status channel.
  unfoldable pub handle_event :
      Item Callback Obj → EventProcessStatus Callback → Item Callback Obj × Trace Callback Obj
  handle_event item eps =
      if is_create_child eps.status
      then (item, start_child (child_of item eps) ∷ [])
      else if is_skip eps.status
      then (item, [])
      else if is_final eps.status && not eps.retry
      then (item, trigger_on_status_callback item eps ∷ [])
      else if eps.retry && ltb item.retry_count eps.max_retry_count
      then (
        record item { retry_count = suc item.retry_count },
        trigger_on_status_callback item (record eps { retry_count = item.retry_count })
            ∷ queue_add (delay eps.retry_after)
            ∷ [],
      )
      else if eps.retry && leb eps.max_retry_count item.retry_count
      then (
        item,
        trigger_on_status_callback item
              (record eps { retry_count = item.retry_count; status = event_max_retry_reached })
            ∷ [],
      )
      else (item, trigger_on_status_callback item eps ∷ [])

  -- The loop over what is sent until the channel is closed.
  unfoldable pub handle_status :
      Item Callback Obj
      → List (EventProcessStatus Callback)
      → Item Callback Obj × Trace Callback Obj
  unfolding handle_event
  handle_status item [] = (item, [])
  handle_status item (eps ∷ sent) =
      let (next, effects) = handle_event item eps in
      let (last, later) = handle_status next sent in (last, effects ++ later)

  -- How often a trace adds the item to the queue, and how often it calls back.
  abbrev pub adds : Trace Callback Obj → ℕ
  adds [] = 0
  adds (queue_add after ∷ effects) = suc (adds effects)
  adds (_ ∷ effects) = adds effects

  abbrev pub callbacks : Trace Callback Obj → ℕ
  callbacks [] = 0
  callbacks (on_status callback eps ∷ effects) = suc (callbacks effects)
  callbacks (_ ∷ effects) = callbacks effects

  -- `processItem`: the handler of the event's type, given what each handler leaves
  unfoldable pub process_item {ℓ} :
      {A : Type ℓ} → (added updated deleted : Item Callback Obj → A) → Item Callback Obj → A
  process_item added updated deleted item =
      for_type item.event_type (added item) (updated item) (deleted item)

  -- The rounds of an item until it is not added again: each round's handler sends a list of
  -- statuses, which may differ from round to round. `none` is running out of fuel.
  unfoldable pub process :
      ℕ → (Item Callback Obj → List (EventProcessStatus Callback)) → Item Callback Obj → Option ℕ
  unfolding handle_status
  process zero handler item = none
  process (suc fuel) handler item =
      let (next, effects) = handle_status item (handler item) in
      let rest = process fuel handler next in
      if nat_eq (adds effects) 0 then some 1 else Option.map suc rest

-- ===== src/Controller/Status.antt =====
-- internal/controller/event_status.go: the status of an event, and the channel that it goes through.
-- A channel is what was sent and whether it is closed; a status channel has a reader, so its buffer
-- does not block a sender for good. `none` is the panic of a send or a close on a closed channel.
-- `Message` is a shared map in the code: callers that chain the builders have one value, as here.
use naavik.Common.{
  ℕ, String, Bool, true, false, List, [], ◌∷◌, ◌++◌, Option, none, some, if◌then◌else◌,
}
use naavik.Common.Table
use naavik.Common.Table.{Table}

pub data EventStatus : Type 0 where
  event_create_child event_skip event_retry event_max_retry_reached : EventStatus
  event_completed event_failure event_processing event_partial_completed : EventStatus

abbrev pub default_max_retry_count : ℕ
default_max_retry_count = 5

-- `Callback` stands for Go's functions on statuses; durations are nanoseconds.
pub record EventProcessStatus (Callback : Type 0) : Type 0 where
  pub max_retry_count : ℕ
  pub status : EventStatus
  pub retry_count : ℕ
  pub retry : Bool
  pub retry_after : ℕ
  pub message : Table String
  pub error : String
  pub child_on_status : Option Callback

pub record Channel (Callback : Type 0) : Type 0 where
  pub sent : List (EventProcessStatus Callback)
  pub is_closed : Bool

-- The status that a sender returns, and the channel after it.
abbrev pub Sent : Type 0 → Type 0
Sent Callback = Option (EventStatus × Option (Channel Callback))

-- The child's channel, nil where the parent's is, and the parent's after the send.
abbrev pub Child : Type 0 → Type 0
Child Callback = Option (Option (Channel Callback) × Option (Channel Callback))

module _ {Callback : Type 0} where
  abbrev pub new_channel : Channel Callback
  new_channel = record { sent = []; is_closed = false }

  unfoldable pub new_event_process_status : EventProcessStatus Callback
  new_event_process_status = record {
    max_retry_count = default_max_retry_count;
    status = event_completed;
    retry_count = 0;
    retry = false;
    retry_after = 0;
    message = [];
    error = "";
    child_on_status = none;
  }

  unfoldable pub with_status :
      EventProcessStatus Callback → EventStatus → EventProcessStatus Callback
  with_status eps status = record eps { status = status }

  unfoldable pub with_retry : EventProcessStatus Callback → EventProcessStatus Callback
  with_retry eps = record eps { retry = true; status = event_retry }

  unfoldable pub with_max_retry : EventProcessStatus Callback → ℕ → EventProcessStatus Callback
  with_max_retry eps count = record eps { max_retry_count = count }

  unfoldable pub with_message :
      EventProcessStatus Callback → String → String → EventProcessStatus Callback
  with_message eps k value = record eps { message = Table.set eps.message k value }

  unfoldable pub with_error : EventProcessStatus Callback → String → EventProcessStatus Callback
  with_error eps err = record eps { error = err }

  -- `ch <- eps` and `close(ch)`
  abbrev push : Channel Callback → EventProcessStatus Callback → Option (Channel Callback)
  push ch eps = if ch.is_closed then none else some (record ch { sent = ch.sent ++ eps ∷ [] })

  -- The send, and the close unless the send panics.
  abbrev push_close : Channel Callback → EventProcessStatus Callback → Option (Channel Callback)
  push_close ch eps =
      if ch.is_closed then none else some (record { sent = ch.sent ++ eps ∷ []; is_closed = true })

  abbrev returning : EventStatus → Option (Channel Callback) → Sent Callback
  returning status none = none
  returning status (some ch) = some (status, some ch)

  unfoldable pub send : EventProcessStatus Callback → Option (Channel Callback) → Sent Callback
  send eps none = some (eps.status, none)
  send eps (some ch) = returning eps.status (push ch eps)

  unfoldable pub send_close :
      EventProcessStatus Callback → Option (Channel Callback) → Sent Callback
  send_close eps none = some (eps.status, none)
  send_close eps (some ch) = returning eps.status (push_close ch eps)

  unfoldable pub skip_close :
      EventProcessStatus Callback → Option (Channel Callback) → Sent Callback
  skip_close eps none = some (eps.status, none)
  skip_close eps (some ch) =
      returning event_skip (push_close ch (record eps { status = event_skip }))

  abbrev with_child : Option (Channel Callback) → Child Callback
  with_child none = none
  with_child (some ch) = some (some new_channel, some ch)

  unfoldable pub create_child_event :
      EventProcessStatus Callback → Option Callback → Option (Channel Callback) → Child Callback
  create_child_event eps child_on_status none = some (none, none)
  create_child_event eps child_on_status (some ch) =
      with_child
        (push ch (record eps { status = event_create_child; child_on_status = child_on_status }))

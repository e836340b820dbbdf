-- ===== src/Events/Steps.antt =====
-- The program's caches and queues under the events of its informers, which come in any order. A
-- handler runs as one step, on the settings, the clock and the lease of that moment. The queues of
-- the controllers are one list, from which any item may be the next.
use naavik.Common.{ℕ, zero, suc, List, [], ◌∷◌, ◌++◌, none, some, ◌≡◌}
use naavik.Resources.{Object}
use naavik.Controller.Status.{EventProcessStatus}
use naavik.Controller.Loop.{handle_status, adds}
use naavik.Handlers.{Call, Callback, Caches, Setting, StatusChan, Outcome}
use naavik.Events.{Delegate, Queued, Keys, add_func, update_func, delete_func, process_event}

-- The calls are those of all handlers so far, in order.
pub record State : Type 0 where
  pub caches : Caches
  pub queue : List (Delegate × Queued)
  pub calls : List Call

abbrev pub initial : State
initial = record {
  caches = record {
    deployments = [];
    rollouts = [];
    services = [];
    identities = [];
    dependencies = record { dependencies = []; dependents = [] };
    traffic_configs = [];
  };
  queue = [];
  calls = [];
}

abbrev pub sent_on : StatusChan → List (EventProcessStatus Callback)
sent_on none = []
sent_on (some ch) = ch.sent

abbrev pub again : Delegate → Queued → ℕ → List (Delegate × Queued)
again delegate item zero = []
again delegate item (suc n) = (delegate, item) ∷ again delegate item n

-- What `handleStatus` adds to the queue again, for the statuses that the handler sent.
unfoldable pub requeued : Delegate → Queued → StatusChan → List (Delegate × Queued)
unfolding handle_status
requeued delegate item ch =
    let (next, effects) = handle_status item (sent_on ch) in again delegate next (adds effects)

unfoldable pub enqueue : State → Delegate → Queued → State
enqueue r delegate item = record r { queue = r.queue ++ (delegate, item) ∷ [] }

-- A round of `processNextItem` that took an item out of the queue.
unfoldable pub process_next_item :
    State → List (Delegate × Queued) → Delegate → Queued → Outcome → State
unfolding requeued
process_next_item r others delegate item outcome = record {
  caches = outcome.caches;
  queue = others ++ requeued delegate item outcome.trail.status_chan;
  calls = r.calls ++ outcome.trail.calls;
}

module _ (keys : Keys) (settings : Setting → Type 0) where
  pub data Step (r : State) : State → Type 0 where
    object_added :
        (delegate : Delegate) (obj : Object) (item : Queued)
        → add_func keys obj ≡ some item
        → Step r (enqueue r delegate item)
    object_updated :
        (delegate : Delegate) (old_obj new_obj : Object) (item : Queued)
        → update_func keys old_obj new_obj ≡ some item
        → Step r (enqueue r delegate item)
    object_deleted :
        (delegate : Delegate) (obj : Object) (item : Queued)
        → delete_func keys obj ≡ some item
        → Step r (enqueue r delegate item)
    item_processed :
        (before later : List (Delegate × Queued)) (delegate : Delegate) (item : Queued)
        (setting : Setting) (outcome : Outcome)
        → settings setting
        → r.queue ≡ before ++ (delegate, item) ∷ later
        → process_event delegate setting r.caches item ≡ some outcome
        → Step r (process_next_item r (before ++ later) delegate item outcome)

  pub data Reach : State → Type 0 where
    at_start : Reach initial
    then_step : {r s : State} → Reach r → Step r s → Reach s

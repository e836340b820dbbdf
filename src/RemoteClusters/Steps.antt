-- ===== src/RemoteClusters/Steps.antt =====
-- The registry of remote clusters under the handler of secrets, the controllers that register, and
-- the goroutines that stop controllers, in any order.
use naavik.Common.{ℕ, String, List, [], ◌∷◌, ◌++◌, some, ◌≡◌}
use naavik.Options.{NaavikArgs}
use naavik.Resources.{Object}
use naavik.Cache.Controllers.{ControllerContext}
use naavik.Handlers.{StatusChan}
use naavik.RemoteClusters.{Loader, Clients}
use naavik.RemoteClusters.Resolve.{ConfigResolver}
use naavik.RemoteClusters.Controllers.{Registry, Stop, register_controller, begin_stop, finish_stop}
use naavik.RemoteClusters.Secrets.{Handled, added, updated, deleted}

module _ {Config ClientConfig RestConfig Client : Type 0}
    (loader : Loader Config ClientConfig RestConfig Client) (resolver : ConfigResolver)
    (params : NaavikArgs) where
  abbrev pub State : Type 0
  State = Registry (Clients ClientConfig Client)

  -- One step of the program. A stop begins and ends at any time, and only once.
  pub data Step (r : State) : State → Type 0 where
    secret_added :
        (obj : Object) (ch : StatusChan) (handled : Handled (Clients ClientConfig Client))
        → added loader resolver params r obj ch ≡ some handled
        → Step r handled.0
    secret_updated :
        (new_obj old_obj : Object) (ch : StatusChan)
        (handled : Handled (Clients ClientConfig Client))
        → updated loader resolver params r new_obj old_obj ch ≡ some handled
        → Step r handled.0
    secret_deleted :
        (obj : Object) (ch : StatusChan) (handled : Handled (Clients ClientConfig Client))
        → deleted r obj ch ≡ some handled
        → Step r handled.0
    controller_registered :
        (name : String) (context : ControllerContext ℕ)
        → Step r (register_controller r name context)
    stop_begun :
        (before later : List Stop) (stop : Stop) (next : State)
        → r.stops ≡ before ++ stop ∷ later
        → begin_stop (record r { stops = before ++ later }) stop ≡ some next
        → Step r next
    stop_finished :
        (before later : List Stop) (stop : Stop)
        → r.draining ≡ before ++ stop ∷ later
        → Step r (finish_stop (record r { draining = before ++ later }) stop)

  -- Nothing is cached at the start.
  abbrev pub initial : State
  initial = record {
    clusters = [];
    controllers = [];
    launched = [];
    stops = [];
    draining = [];
    closed = [];
  }

  pub data Reach : State → Type 0 where
    at_start : Reach initial
    then_step : {r s : State} → Reach r → Step r s → Reach s

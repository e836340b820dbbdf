-- ===== src/Handlers.antt =====
-- internal/handler: what a handler reads and changes, and how it reports. Handlers of TrafficConfigs
-- (TrafficConfig), of dependencies (Dependency) and of workloads and services (Workloads).
pub mod TrafficConfig
pub mod Dependency
pub mod Workloads
pub mod Kept
pub mod Reports
pub mod ReadOnly
pub mod Effects
pub mod Converse
pub mod Triggers
use naavik.Common.{ℕ, Bool, List, [], Option, none, some}
use naavik.Common.Types.{EventType}
use naavik.Options.{NaavikArgs}
use naavik.Resources
use naavik.Controller.Status.{EventStatus, Channel, new_event_process_status, skip_close}
use naavik.Cache

-- The caches that handlers share.
pub record Caches : Type 0 where
  pub deployments : Cache.Deployments.Cache
  pub rollouts : Cache.Rollouts.Cache
  pub services : Cache.Services.Cache
  pub identities : Cache.Identities.Cache
  pub dependencies : Cache.Dependencies.Cache
  pub traffic_configs : Cache.TrafficConfigs.Cache

-- The settings, the time since the start, and the state of the lease (internal/leasechecker), which
-- stay as they are while a handler runs.
pub record Setting : Type 0 where
  pub params : NaavikArgs
  pub elapsed : ℕ
  pub is_read_only : Bool

-- `OnStatus` of the TrafficConfig handler, the one callback that children have.
pub data Callback : Type 0 where
  traffic_config_on_status : Callback

abbrev pub StatusChan : Type 0
StatusChan = Option (Channel Callback)

-- `HandleRateLimiter` and `HandleVirtualServiceForTrafficConfig`, which read the caches and write to
-- the clusters.
pub data Call : Type 0 where
  handle_rate_limiter : Resources.TrafficConfig → EventType → Call
  handle_virtual_service : Resources.TrafficConfig → Call

-- What a run leaves: the calls, in order, the status channel, and the channels of the children.
pub record Trail : Type 0 where
  pub calls : List Call
  pub status_chan : StatusChan
  pub children : List StatusChan

pub record Outcome : Type 0 where
  pub caches : Caches
  pub status : EventStatus
  pub trail : Trail

abbrev pub start : StatusChan → Trail
start ch = record { calls = []; status_chan = ch; children = [] }

abbrev pub closed_with : Caches → Trail → Option (EventStatus × StatusChan) → Option Outcome
closed_with caches trail none = none
closed_with caches trail (some (status, ch)) =
    some (record { caches = caches; status = status; trail = record trail { status_chan = ch } })

-- `return controller.NewEventProcessStatus().SkipClose(statusChan)`; `none` is a panic.
unfoldable pub finish : Caches → Trail → Option Outcome
unfolding skip_close new_event_process_status
finish caches trail =
    closed_with caches trail (skip_close new_event_process_status trail.status_chan)

-- The type assertion at the start of an operation, and the early return where it fails.
abbrev pub on_cast {ℓ} :
    {A : Type ℓ} → Option A → Option Outcome → (A → Option Outcome) → Option Outcome
on_cast none skipped handle = skipped
on_cast (some a) skipped handle = handle a

-- ===== src/Lease.antt =====
-- internal/leasechecker: whether this replica may write. The state is a value; the lock makes each
-- read of it one step, and the checker writes to it at the start-up (internal/bootstrap/init.go).
use naavik.Common.{String, Bool, true, false, Option, none, some, ◌==◌, if◌then◌else◌}
use naavik.Common.Types.{state_checker_none}
use naavik.Options.{NaavikArgs}

pub record LeaseState : Type 0 where
  pub read_only : Bool
  pub is_state_initialized : Bool

-- `currentLeaseState` at the start, and after `ResetState`
abbrev pub initial_lease_state : LeaseState
initial_lease_state = record { read_only = true; is_state_initialized = false }

-- `LeaseStateChecker`: `RunStateCheck`, and whether it runs on a goroutine of its own.
pub record LeaseStateChecker : Type 0 where
  pub run_state_check : LeaseState → LeaseState
  pub should_run_on_independent_go_routine : Bool

-- no_op_lease_checker.go
unfoldable pub no_op_state_checker : LeaseStateChecker
no_op_state_checker = record {
  run_state_check = λ state. record { read_only = false; is_state_initialized = true };
  should_run_on_independent_go_routine = false;
}

-- `GetStateChecker`; `none` ends the program.
unfoldable pub get_state_checker : String → Option LeaseStateChecker
unfolding no_op_state_checker
get_state_checker name = if name == state_checker_none then some no_op_state_checker else none

-- `RunStateCheck`, when the check has run, on whichever goroutine
unfoldable pub run_state_check : LeaseStateChecker → LeaseState → LeaseState
run_state_check checker state =
    if checker.should_run_on_independent_go_routine
    then checker.run_state_check state
    else checker.run_state_check state

unfoldable pub is_read_only : LeaseState → Bool
is_read_only state = state.read_only

unfoldable pub is_state_initialized : LeaseState → Bool
is_state_initialized state = state.is_state_initialized

unfoldable pub reset_state : LeaseState → LeaseState
reset_state state = initial_lease_state

abbrev checked : Option LeaseStateChecker → LeaseState → Option LeaseState
checked none state = none
checked (some checker) state = some (run_state_check checker state)

-- `startStateChecker`
unfoldable pub start_state_checker : NaavikArgs → LeaseState → Option LeaseState
unfolding get_state_checker run_state_check
start_state_checker params state = checked (get_state_checker params.state_checker) state

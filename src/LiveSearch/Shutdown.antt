-- ===== src/LiveSearch/Shutdown.antt =====
-- live-search/src/shutdown.rs, `wait` on Unix: what it awaited is given, and what it does to the
-- resources is a list of actions. Errors are those of signals and tasks, over any type, and that of
-- the grace period.
pub mod Outcome
use rust_web_fullstack.Prelude.{
  ℕ, Bool, true, false, Option, none, some, List, [], ◌∷◌, ◌++◌, Result, ok, err, if◌then◌else◌,
}

pub data Action : Type 0 where
  cancel join_all abort_all close_pool flush_telemetry : Action

-- The first branch of the select that is ready.
pub data Wakeup (E : Type 0) : Type 0 where
  cancelled terminated : Wakeup E
  ctrl_c : Result (Unit {0}) E → Wakeup E

-- What `join_next` gives for a task: what the task returned, or that it panicked or was aborted.
abbrev pub Joined : Type 0 → Type 0
Joined E = Result (Result (Unit {0}) E) E

module _ {E : Type 0} where
  unfoldable pub signal_error : Result (Wakeup E) E → Option E
  signal_error (err e) = some e
  signal_error (ok (ctrl_c (err e))) = some e
  signal_error (ok (ctrl_c (ok u))) = none
  signal_error (ok cancelled) = none
  signal_error (ok terminated) = none

  task_error : Joined E → Option E
  task_error (ok (ok u)) = none
  task_error (ok (err e)) = some e
  task_error (err e) = some e

  -- `Option::or`, and `first_error.is_none()` before each assignment.
  or_else : Option E → Option E → Option E
  or_else (some e) later = some e
  or_else none later = later

  -- The loop over `join_next`.
  unfoldable pub join_tasks : Option E → List (Joined E) → Option E
  unfolding task_error or_else
  join_tasks first_error [] = first_error
  join_tasks first_error (j ∷ js) = join_tasks (or_else first_error (task_error j)) js

  -- The tasks that joined within the grace period, or that it elapsed.
  drain_error : E → Result (List (Joined E)) (Unit {0}) → Option E
  unfolding join_tasks
  drain_error grace (ok joined) = join_tasks none joined
  drain_error grace (err elapsed) = some grace

  drain_actions : Result (List (Joined E)) (Unit {0}) → List Action
  drain_actions (ok joined) = join_all ∷ []
  drain_actions (err elapsed) = join_all ∷ abort_all ∷ []

  to_result : Option E → Result (Unit {0}) E
  to_result none = ok tt
  to_result (some e) = err e

  unfoldable pub wait :
      E
      → Bool
      → Result (Wakeup E) E
      → Result (List (Joined E)) (Unit {0})
      → List Action × Result (Unit {0}) E
  unfolding signal_error drain_error drain_actions to_result or_else
  wait grace has_provider woken drained = (
    cancel ∷ drain_actions drained
        ++ close_pool ∷ (if has_provider then flush_telemetry ∷ [] else []),
    to_result (or_else (signal_error woken) (drain_error grace drained)),
  )

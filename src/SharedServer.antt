-- ===== src/SharedServer.antt =====
-- e2e-tests/src/common/once.rs: `SharedServer`, started once for any number of concurrent callers.
-- One event is what one thread does between two points where the others can see it: `call_once`
-- returns to no caller before it is complete, and the background thread fills the cell and then
-- stores the flag. An event that its thread cannot do yet leaves the state as it is.
pub mod Agreement
mod Tests
use rust_web_fullstack.Prelude.{
  ℕ, ◌+◌, Bool, true, false, Option, none, some, List, [], ◌∷◌, Result, ok, err, if◌then◌else◌,
}

pub data Background : Type 0 where
  -- Not spawned, running, the cell filled, the flag stored.
  unspawned running filled signalled : Background

abbrev pub is_running : Background → Bool
is_running running = true
is_running b = false

abbrev pub is_filled : Background → Bool
is_filled filled = true
is_filled b = false

-- What `get` gives.
pub data Answer (T E : Type 0) : Type 0 where
  got : T → Answer T E
  start_failed : E → Answer T E
  timed_out not_initialized : Answer T E

pub record Server (T E : Type 0) : Type 0 where
  pub cell : Option (Result T E)
  pub bg_init_done : Bool
  -- Whether `bg_init_once` is complete.
  pub bg_init_once : Bool
  pub background : Background
  -- How often `start` was run, and what the callers were given, the last one first.
  pub starts : ℕ
  pub answers : List (Answer T E)

pub data Event (T E : Type 0) : Type 0 where
  -- A caller passes `call_once`; where it is the first, the spawn succeeds or fails.
  call_once : Result (Unit {0}) E → Event T E
  -- The background thread has no runtime, or runs `start`.
  no_runtime : E → Event T E
  run_start : Result T E → Event T E
  signal : Event T E
  -- A caller looks at the flag, before or after its deadline.
  poll : Bool → Event T E

module _ {T E : Type 0} where
  unfoldable pub new : Server T E
  new = record {
    cell = none;
    bg_init_done = false;
    bg_init_once = false;
    background = unspawned;
    starts = 0;
    answers = [];
  }

  -- The closure of `call_once`.
  init : Result (Unit {0}) E → Server T E → Server T E
  init (ok u) s = record s { bg_init_once = true; background = running }
  init (err e) s = record s { bg_init_once = true; cell = some (err e); bg_init_done = true }

  -- `cell.set`, which the first call wins.
  fill : Result T E → Server T E → Server T E
  fill result s = record s {
    cell = elim s.cell [ none ↦ some result | some first ↦ some first ];
    background = filled;
  }

  -- The end of `get`, once the flag is seen.
  abbrev pub read_cell : Option (Result T E) → Answer T E
  read_cell none = not_initialized
  read_cell (some (ok t)) = got t
  read_cell (some (err e)) = start_failed e

  unfoldable pub step : Event T E → Server T E → Server T E
  unfolding init fill
  step (call_once spawned) s = if s.bg_init_once then s else init spawned s
  step (no_runtime e) s = if is_running s.background then fill (err e) s else s
  step (run_start result) s =
      if is_running s.background then record (fill result s) { starts = s.starts + 1 } else s
  step signal s =
      if is_filled s.background then record s { bg_init_done = true; background = signalled } else s
  step (poll late) s =
      if s.bg_init_once
      then (if s.bg_init_done
          then record s { answers = read_cell s.cell ∷ s.answers }
          else if late
          then record s { answers = timed_out ∷ s.answers }
          else s)
      else s

  unfoldable pub run : List (Event T E) → Server T E → Server T E
  unfolding step
  run [] s = s
  run (e ∷ es) s = run es (step e s)

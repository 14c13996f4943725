-- ===== src/LiveSearch/Main.antt =====
-- live-search/src/main.rs: `main` starts the service and waits for its end. What the awaits of the
-- start and of the shutdown give are arguments. The readiness probe of live-search/src/bootstrap.rs
-- stands here too.
pub mod Ends
use rust_web_fullstack.Prelude.{
  ℕ, Bool, String, Text, Option, List, [], Result, ok, err, Stop, ◌==◌, if◌then◌else◌,
}
use rust_web_fullstack.Config.Load.{Sources}
use rust_web_fullstack.Settings.Load.{Vars}
use rust_web_fullstack.LiveSearch.Bootstrap.{PoolTunables, BootError, World, BootOutcomes, run}
use rust_web_fullstack.LiveSearch.Shutdown.{Wakeup, Joined, wait}
use rust_web_fullstack.LiveSearch.Shutdown

pub data MainError (E : Type 0) : Type 0 where
  not_started : Stop BootError → MainError E
  shut_down : E → MainError E

-- What the shutdown meets: the select's first branch, how the tasks end, whether a provider is set.
pub record ShutdownOutcomes (E : Type 0) : Type 0 where
  pub grace : E
  pub has_provider : Bool
  pub woken : Result (Wakeup E) E
  pub drained : Result (List (Joined E)) (Unit {0})

-- The process afterwards, with what the shutdown did.
pub record Process : Type 0 where
  pub world : World
  pub shutdown : List Shutdown.Action

module _ {E : Type 0} (parse_u16 : Text → Option ℕ) where
  map_shut_down : Result (Unit {0}) E → Result (Unit {0}) (MainError E)
  map_shut_down (ok u) = ok u
  map_shut_down (err e) = err (shut_down e)

  -- The second line of `main`. At its end the JoinSet is dropped, so none of its tasks goes on.
  serve :
      World
      → ShutdownOutcomes E
      → World × Result (Text × PoolTunables) (Stop BootError)
      → Process × Result (Unit {0}) (MainError E)
  unfolding map_shut_down
  serve before out (w, err e) = (record { world = w; shutdown = [] }, err (not_started e))
  serve before out (w, ok handle) =
      let waited = wait out.grace out.has_provider out.woken out.drained in
      (
        record { world = record w { running = before.running }; shutdown = waited.0 },
        map_shut_down waited.1,
      )

  pub main :
      BootOutcomes
      → ShutdownOutcomes E
      → Vars
      → Sources
      → World
      → Process × Result (Unit {0}) (MainError E)
  unfolding serve
  main io out var sources w = serve w out (run parse_u16 io var sources w)

-- How `SELECT 1` ends.
pub data Probe : Type 0 where
  answered : ℕ → Probe
  failed_query : Probe

pub readiness_handler : Probe → ℕ × String
readiness_handler (answered n) =
    if n == 1 then (200, "ready") else (503, "database readiness failed")
readiness_handler failed_query = (503, "database unavailable")

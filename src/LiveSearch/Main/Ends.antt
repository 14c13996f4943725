-- ===== src/LiveSearch/Main/Ends.antt =====
-- How a run of the live search ends: live-search/src/main.rs.
use rust_web_fullstack.Prelude.{
  ℕ, Text, Option, [], ◌∷◌, ◌++◌, Result, ok, err, Stop, ◌≡◌, ◌↔◌, refl, subst, arith,
  if◌then◌else◌,
}
use rust_web_fullstack.Config.Load.{Sources}
use rust_web_fullstack.Settings.Load.{Vars}
use rust_web_fullstack.LiveSearch.Bootstrap.{PoolTunables, BootError, World, BootOutcomes, run}
use rust_web_fullstack.LiveSearch.Bootstrap.Started.{
  IsStarted, Cause, Ended, started, refused, run-Ended,
}
use rust_web_fullstack.LiveSearch.Shutdown.{cancel, join_all, close_pool, flush_telemetry, wait}
use rust_web_fullstack.LiveSearch.Shutdown.Outcome.{
  IsQuiet, AllDone, overdue, wait-eq-ok_iff, wait-actions,
}
use rust_web_fullstack.LiveSearch.Main.{
  MainError, not_started, ShutdownOutcomes, Process, map_shut_down, serve, main,
}

module _ {E : Type 0} (parse_u16 : Text → Option ℕ) (io : BootOutcomes) (out : ShutdownOutcomes E)
    (var : Vars) (sources : Sources) (w : World) where
  pub data Ends (p : Process) (result : Result (Unit {0}) (MainError E)) : Type 0 where
    served :
        (w' : World) (handle : Text × PoolTunables)
        → IsStarted parse_u16 io var sources w w' handle
        → p.world ≡ record w' { running = w.running }
        → p.shutdown
          ≡ cancel
            ∷ join_all
            ∷ (overdue out.drained
                ++ close_pool ∷ (if out.has_provider then flush_telemetry ∷ [] else []))
        → (result ≡ ok tt) ↔ (IsQuiet out.woken × AllDone out.drained)
        → Ends p result
    unserved :
        (e : Stop BootError)
        → result ≡ err (not_started e)
        → Cause parse_u16 io var sources w e
        → p.world.running ≡ w.running
        → p.shutdown ≡ []
        → Ends p result

  map_shut_down-eq-ok_iff :
      (r : Result (Unit {0}) E) → (map_shut_down parse_u16 r ≡ ok tt) ↔ (r ≡ ok tt)
  unfolding map_shut_down
  map_shut_down-eq-ok_iff (ok u) = ground arith
  map_shut_down-eq-ok_iff (err e) = ground arith

  serve-Ends :
      (w' : World) (result : Result (Text × PoolTunables) (Stop BootError))
      → Ended parse_u16 io var sources w w' result
      → Ends (serve parse_u16 w out (w', result)).0 (serve parse_u16 w out (w', result)).1
  unfolding serve
  serve-Ends w' (ok handle) (started handle' same is_started) =
      served w' handle (subst (IsStarted parse_u16 io var sources w w') (cc) is_started) refl
        (wait-actions out.grace out.has_provider out.woken out.drained)
        (ground (
          arith,
          map_shut_down-eq-ok_iff (wait out.grace out.has_provider out.woken out.drained).1,
          wait-eq-ok_iff out.grace out.has_provider out.woken out.drained,
        ))
  serve-Ends w' (ok handle) (refused e same cause left) = absurd (cc)
  serve-Ends w' (err e) (started handle' same is_started) = absurd (cc)
  serve-Ends w' (err e) (refused e' same cause left) =
      unserved e refl (subst (Cause parse_u16 io var sources w) (cc) cause) left refl

-- A run of `main` ends in one of two ways. Either it served: the startup did its steps once each
-- and in order with an accepted configuration, of the file that RWF_CONFIG names if it is set, the
-- shutdown then cancelled the token, joined the tasks, aborted them if they did not join in time,
-- closed the pool, and flushed the telemetry if there is a provider, in this order, and `main`
-- succeeds exactly when no signal handler failed and every task joined in time without an error. Or
-- the startup was refused for a cause, nothing was shut down, and `main` gives that error. Either
-- way no task of its own goes on running.
pub main-Ends :
    {E : Type 0} (parse_u16 : Text → Option ℕ) (io : BootOutcomes) (out : ShutdownOutcomes E)
    (var : Vars) (sources : Sources) (w : World)
    → Ends parse_u16 io out var sources w
        (main parse_u16 io out var sources w).0
        (main parse_u16 io out var sources w).1
unfolding main
main-Ends parse_u16 io out var sources w =
    serve-Ends parse_u16 io out var sources w (run parse_u16 io var sources w).0
      (run parse_u16 io var sources w).1 (run-Ended parse_u16 io var sources w)

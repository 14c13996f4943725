-- ===== src/LiveSearch/Shutdown/Outcome.antt =====
-- live-search/src/shutdown.rs, `wait`: when it succeeds, and what it has done by then.
use rust_web_fullstack.Prelude.{
  Bool, none, some, List, [], ◌∷◌, ◌++◌, Result, ok, err, ◌≡◌, ◌↔◌, refl, arith, All, if◌then◌else◌,
}
use rust_web_fullstack.LiveSearch.Shutdown.{
  Action, cancel, join_all, abort_all, close_pool, flush_telemetry, drain_actions, Wakeup, Joined,
  signal_error, task_error, or_else, join_tasks, drain_error, to_result, wait,
}

-- What remains to be done where the tasks do not join in time.
abbrev pub overdue : {E : Type 0} → Result (List (Joined E)) (Unit {0}) → List Action
overdue (ok joined) = []
overdue (err elapsed) = abort_all ∷ []

module _ {E : Type 0} where
  -- The select ended without an error of a signal handler.
  abbrev pub IsQuiet : Result (Wakeup E) E → Type 0
  IsQuiet woken = signal_error woken ≡ none

  -- Every task joined in time, and each returned without an error.
  abbrev pub AllDone : Result (List (Joined E)) (Unit {0}) → Type 0
  AllDone (ok joined) = All (λ j. j ≡ ok (ok tt)) joined
  AllDone (err elapsed) = ⊥

  join_tasks-some : (e : E) (js : List (Joined E)) → join_tasks (some e) js ≡ some e
  unfolding join_tasks or_else
  join_tasks-some e [] = refl
  join_tasks-some e (j ∷ js) = join_tasks-some e js

  join_tasks-none :
      (js : List (Joined E)) → (join_tasks none js ≡ none) ↔ All (λ j. j ≡ ok (ok tt)) js
  unfolding join_tasks or_else task_error
  join_tasks-none [] = ground arith
  join_tasks-none (ok (ok u) ∷ js) = ground (arith, join_tasks-none js)
  join_tasks-none (ok (err e) ∷ js) = ground (arith, join_tasks-some e js)
  join_tasks-none (err e ∷ js) = ground (arith, join_tasks-some e js)

  -- `wait` succeeds exactly when no signal handler failed and every task joined in time without an
  -- error.
  pub wait-eq-ok_iff :
      (grace : E) (has_provider : Bool) (woken : Result (Wakeup E) E)
      (drained : Result (List (Joined E)) (Unit {0}))
      → ((wait grace has_provider woken drained).1 ≡ ok tt) ↔ (IsQuiet woken × AllDone drained)
  unfolding wait drain_error to_result or_else
  wait-eq-ok_iff grace p woken (ok joined) = ground (arith, join_tasks-none joined)
  wait-eq-ok_iff grace p woken (err elapsed) = ground arith

  -- What `wait` has done by its end, in order.
  pub wait-actions :
      (grace : E) (has_provider : Bool) (woken : Result (Wakeup E) E)
      (drained : Result (List (Joined E)) (Unit {0}))
      → (wait grace has_provider woken drained).0
        ≡ cancel
          ∷ join_all
          ∷ (overdue drained ++ close_pool ∷ (if has_provider then flush_telemetry ∷ [] else []))
  unfolding wait drain_actions
  wait-actions grace p woken (ok joined) = refl
  wait-actions grace p woken (err elapsed) = refl

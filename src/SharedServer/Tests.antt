-- ===== src/SharedServer/Tests.antt =====
-- Two callers of `SharedServer::get`, of e2e-tests/src/common/once.rs.
use rust_web_fullstack.Prelude.{ℕ, ◌≤◌, true, false, List, [], ◌∷◌, All, ok, ◌≡◌, refl}
use rust_web_fullstack.SharedServer.{
  Event, call_once, run_start, signal, poll, timed_out, got, new, run, step,
}
use rust_web_fullstack.SharedServer.Agreement.{Agrees, run-Agrees}

-- The first caller gives up, the second one is given the server.
abbrev events : List (Event ℕ ℕ)
events =
    call_once (ok tt)
    ∷ poll true
    ∷ call_once (ok tt)
    ∷ run_start (ok 7)
    ∷ poll false
    ∷ signal
    ∷ poll false
    ∷ []

both_answered : (run events new).answers ≡ got 7 ∷ timed_out ∷ []
unfolding run step new
both_answered = refl

run-Agrees_example :
    ((run events new).starts ≤ 1) × All (Agrees (run events new).cell) (run events new).answers
run-Agrees_example = run-Agrees events

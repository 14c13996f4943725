-- ===== src/TestServers/Envs/Once.antt =====
-- How often a live search can be started in one process: e2e-tests/src/common/live_search_env.rs.
use rust_web_fullstack.Prelude.{
  ℕ, ◌+◌, ◌≤◌, Text, Option, some, List, [], ◌∷◌, Result, ok, err, ◌≡◌, ◌⊎◌,
}
use rust_web_fullstack.LiveSearch.Bootstrap.{AppContext}
use rust_web_fullstack.TestServers.Envs.{
  EnvError, Machine, LiveSearchOutcomes, start_with, drop_env,
}

-- In one process: starts of a live search, and ends of environments.
pub data Event : Type 0 where
  started : LiveSearchOutcomes → Event
  dropped : Event

abbrev pub count_ok : Result Text EnvError → ℕ
count_ok (ok addr) = 1
count_ok (err e) = 0

-- How many starts succeed.
abbrev pub successes : List Event → Machine → ℕ
successes [] m = 0
successes (started o ∷ es) m = count_ok (start_with o m).1 + successes es (start_with o m).0
successes (dropped ∷ es) m = successes es (drop_env m)

-- A start that finds the context set does not succeed; one that succeeds has set it. A set context
-- stays.
abbrev Once : Option AppContext → Machine × Result Text EnvError → Type 0
Once before r =
    ((c : AppContext) → before ≡ some c → (r.0.context ≡ some c) × (count_ok r.1 ≡ 0))
    × ((count_ok r.1 ≡ 0) ⊎ ((c : AppContext) × (r.0.context ≡ some c)))
    × (count_ok r.1 ≤ 1)

-- ===== src/TestServers/Tests.antt =====
-- Concrete starts of test servers: e2e-tests/src/common.
use rust_web_fullstack.Prelude.{
  ℕ, ◌+◌, ◌*◌, ◌≤◌, ◌<◌, true, ◌==◌, codes, Option, none, some, ok, ◌≡◌, ◌↔◌, refl, arith,
  if◌then◌else◌,
}
use rust_web_fullstack.TestServers.Poll.{wait_for_server, poll_until}
use rust_web_fullstack.TestServers.Poll.Waits.{wait_for_server-eq-true_iff}
use rust_web_fullstack.TestServers.Envs.{
  Machine, DbOutcomes, LaunchOutcomes, GatewayOutcomes, LiveSearchOutcomes, start, postgres, launch,
  await_ready, look, is_ready,
}

abbrev clock : ℕ → ℕ
clock n = 200 * n

-- The fourth request is answered.
abbrev reply : ℕ → Option ℕ
reply n = if n == 3 then some 200 else none

wait_for_server-eq-true_iff_example : (wait_for_server 0 1_000 clock reply ≡ true) ↔ (
    (n : ℕ) × (clock n < 0 + 1_000)
    × ((status : ℕ) × (reply n ≡ some status) × (200 ≤ status) × (status < 400)))
wait_for_server-eq-true_iff_example =
    wait_for_server-eq-true_iff 0 1_000 clock reply (λ n. omega arith) (omega arith)

abbrev db : DbOutcomes
db = record {
  starts = true;
  host = some (codes "docker");
  host_port = some (codes "32768");
  connects = true;
  migrates = true;
  seeds = true;
}

abbrev launched : LaunchOutcomes
launched = record {
  bound = some (codes "127.0.0.1:40001");
  stored = λ n. ok true;
  bind_started = 0;
  bind_clock = clock;
  client_builds = true;
  health_started = 0;
  health_clock = clock;
  reply = reply;
}

abbrev gateway : GatewayOutcomes
gateway = record { has_keys = true; db = db; builds = true; spawns = true; launched = launched }

abbrev live_search : LiveSearchOutcomes
live_search = record {
  db = db;
  pools = true;
  manifest_is_utf8 = true;
  reads_options = true;
  pkg_dir_exists = none;
  spawns = true;
  launched = launched;
}

abbrev idle : Machine
idle = record { containers = 0; serving = 0; context = none }

starts : (start gateway idle).1 ≡ ok (codes "127.0.0.1:40001")
unfolding start poll_until postgres launch await_ready look is_ready
starts = refl

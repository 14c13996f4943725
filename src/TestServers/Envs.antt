-- ===== src/TestServers/Envs.antt =====
-- Servers for the end-to-end tests: `TestEnv::postgres` of e2e-tests/src/common/db.rs,
-- `GatewayEnv::start` of gateway_env.rs and `LiveSearchEnv::start_with` of live_search_env.rs, with
-- the ends of both by Drop. A machine counts what runs: containers, and threads that serve and
-- whose token is not cancelled. What a step meets is a field of the outcomes.
pub mod Starts
pub mod Once
use rust_web_fullstack.Prelude.{
  ℕ, ◌+◌, ◌-◌, Bool, true, false, not, ltb, leb, ◌&&◌, Text, codes, ◌++◌, Option, none, some, List,
  [], ◌∷◌, Result, ok, err, ◌>>=◌, ◌>>◌, ok_or, map_err, refuse_if, if◌then◌else◌,
}
use rust_web_fullstack.LiveSearch.Bootstrap.{AppContext}
use rust_web_fullstack.TestServers.Poll.{Polled, found, timed_out, unfinished, poll_until, rounds}

pub data DbError : Type 0 where
  container host port connect migrations seed : DbError

pub data EnvError : Type 0 where
  keys router pool already_initialized manifest leptos_options pkg_dir : EnvError
  database : DbError → EnvError
  spawn poisoned not_bound client not_ready : EnvError
  -- A wait took more rounds than the model allows it.
  out_of_fuel : EnvError

pub record Machine : Type 0 where
  pub containers : ℕ
  pub serving : ℕ
  -- The live search's context, which a process sets once.
  pub context : Option AppContext

pub record DbOutcomes : Type 0 where
  pub starts : Bool
  pub host : Option Text
  pub host_port : Option Text
  pub connects : Bool
  pub migrates : Bool
  pub seeds : Bool

-- The connection string. A container whose set-up fails is dropped, and stops.
unfoldable pub postgres : DbOutcomes → Result Text DbError
postgres o = do
  refuse_if (not o.starts) container
  host_of ← ok_or host o.host
  host_port ← ok_or port o.host_port
  refuse_if (not o.connects) connect
  refuse_if (not o.migrates) migrations
  refuse_if (not o.seeds) seed
  ok (
      codes "postgres://postgres:postgres@"
      ++ host_of
      ++ codes ":"
      ++ host_port
      ++ codes "/postgres")

-- The thread that serves, and the two waits for it: the address that it has bound and stored, from
-- when on it serves (a thread that cannot bind, or cannot lock to store, returns and has none),
-- whether it is there when the n-th round looks (or the lock is poisoned), and how the n-th health
-- request ends.
pub record LaunchOutcomes : Type 0 where
  pub bound : Option Text
  pub stored : ℕ → Result Bool (Unit {0})
  pub bind_started : ℕ
  pub bind_clock : ℕ → ℕ
  pub client_builds : Bool
  pub health_started : ℕ
  pub health_clock : ℕ → ℕ
  pub reply : ℕ → Option ℕ

unfoldable pub look : LaunchOutcomes → ℕ → Option (Result Text EnvError)
look o n = elim (o.stored n) [
  | err e ↦ some (err poisoned)
  | ok false ↦ none
  | ok true ↦ elim o.bound [ none ↦ none | some addr ↦ some (ok addr) ]
]

unfoldable pub is_ready : Option ℕ → Option (Unit {0})
is_ready none = none
is_ready (some status) = if leb 200 status && ltb status 300 then some tt else none

on_bind : Polled (Result Text EnvError) → Result Text EnvError
on_bind (found r) = r
on_bind timed_out = err not_bound
on_bind unfinished = err out_of_fuel

on_health : Polled (Unit {0}) → Result (Unit {0}) EnvError
on_health (found u) = ok tt
on_health timed_out = err not_ready
on_health unfinished = err out_of_fuel

-- `timeout` for each wait, and the pause between two health requests.
unfoldable pub await_ready : ℕ → ℕ → LaunchOutcomes → Result Text EnvError
unfolding on_bind on_health
await_ready timeout pause o = do
  addr ← on_bind (poll_until (rounds timeout 50) (o.bind_started + timeout) o.bind_clock (look o) 0)
  refuse_if (not o.client_builds) client
  on_health (
      poll_until (rounds timeout pause) (o.health_started + timeout) o.health_clock
        (λ n. is_ready (o.reply n)) 0)
  ok addr

-- The threads that serve once this one is spawned: it does if it has bound its
-- address and stored it.
abbrev pub bound_count : LaunchOutcomes → ℕ
bound_count o = elim o.bound [ none ↦ 0 | some addr ↦ 1 ]

-- What the waits give does not end the thread: an error drops the container only.
conclude : LaunchOutcomes → Machine → Result Text EnvError → Machine × Result Text EnvError
conclude o m (ok addr) =
    (record m { containers = m.containers + 1; serving = m.serving + bound_count o }, ok addr)
conclude o m (err e) = (record m { serving = m.serving + bound_count o }, err e)

unfoldable pub launch : ℕ → ℕ → LaunchOutcomes → Machine → Machine × Result Text EnvError
unfolding conclude
launch timeout pause o m = conclude o m (await_ready timeout pause o)

pub record GatewayOutcomes : Type 0 where
  pub has_keys : Bool
  pub db : DbOutcomes
  pub builds : Bool
  pub spawns : Bool
  pub launched : LaunchOutcomes

prepare_gateway : GatewayOutcomes → Result Text EnvError
prepare_gateway o = do
  refuse_if (not o.has_keys) keys
  url ← map_err database (postgres o.db)
  refuse_if (not o.builds) router
  refuse_if (not o.spawns) spawn
  ok url

spawn_gateway : GatewayOutcomes → Machine → Result Text EnvError → Machine × Result Text EnvError
spawn_gateway o m (ok url) = launch 15_000 100 o.launched m
spawn_gateway o m (err e) = (m, err e)

-- `GatewayEnv::start`: the address.
unfoldable pub start : GatewayOutcomes → Machine → Machine × Result Text EnvError
unfolding prepare_gateway spawn_gateway
start o m = spawn_gateway o m (prepare_gateway o)

pub record LiveSearchOutcomes : Type 0 where
  pub db : DbOutcomes
  pub pools : Bool
  pub manifest_is_utf8 : Bool
  pub reads_options : Bool
  -- Whether the directory of the build exists, where one is set.
  pub pkg_dir_exists : Option Bool
  pub spawns : Bool
  pub launched : LaunchOutcomes

prepare_pool : LiveSearchOutcomes → Result Text EnvError
prepare_pool o = do url ← map_err database (postgres o.db); refuse_if (not o.pools) pool; ok url

prepare_router : LiveSearchOutcomes → Result (Unit {0}) EnvError
prepare_router o = do
  refuse_if (not o.manifest_is_utf8) manifest
  refuse_if (not o.reads_options) leptos_options
  refuse_if (elim o.pkg_dir_exists [ none ↦ false | some exists ↦ not exists ]) pkg_dir
  refuse_if (not o.spawns) spawn

spawn_live_search :
    LiveSearchOutcomes → Machine → Result (Unit {0}) EnvError → Machine × Result Text EnvError
spawn_live_search o m (ok u) = launch 30_000 200 o.launched m
spawn_live_search o m (err e) = (m, err e)

-- From `state::set` on.
with_context :
    LiveSearchOutcomes → Text → Machine → Option AppContext → Machine × Result Text EnvError
unfolding prepare_router spawn_live_search
with_context o url m (some c) = (m, err already_initialized)
with_context o url m none =
    spawn_live_search o
      (record m { context = some (record { database_url = url; capacity = 256 }) })
      (prepare_router o)

with_pool : LiveSearchOutcomes → Machine → Result Text EnvError → Machine × Result Text EnvError
unfolding with_context
with_pool o m (ok url) = with_context o url m m.context
with_pool o m (err e) = (m, err e)

unfoldable pub start_with : LiveSearchOutcomes → Machine → Machine × Result Text EnvError
unfolding prepare_pool with_pool
start_with o m = with_pool o m (prepare_pool o)

-- The end of an environment of either kind: its token is cancelled and its container stops.
unfoldable pub drop_env : Machine → Machine
drop_env m = record m { containers = m.containers - 1; serving = m.serving - 1 }

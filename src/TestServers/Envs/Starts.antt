-- ===== src/TestServers/Envs/Starts.antt =====
-- What the start of a test server leaves: e2e-tests/src/common/gateway_env.rs, live_search_env.rs.
pub mod Launch
use rust_web_fullstack.Prelude.{
  ℕ, suc, ◌+◌, ◌≤◌, Text, Option, none, some, List, [], ◌∷◌, Result, ok, err, ◌>>=◌, ◌>>◌, ◌≡◌, ◌⊎◌,
  ◌∙◌, inl, inr, Result-cases, Option-cases,
}
use rust_web_fullstack.LiveSearch.Bootstrap.{AppContext}
use rust_web_fullstack.TestServers.Envs.{
  EnvError, keys, router, spawn, database, Machine, LaunchOutcomes, GatewayOutcomes,
  LiveSearchOutcomes, await_ready, conclude, spawn_live_search, with_pool, prepare_pool,
  prepare_router, with_context, launch, start_with, drop_env,
}
use rust_web_fullstack.TestServers.Envs.Starts.Launch.{IsReady, Launched, LaunchFault}

-- What stops a start of the gateway before its thread is spawned.
abbrev pub StartFault : EnvError → Type 0
StartFault keys = Unit {0}
StartFault router = Unit {0}
StartFault spawn = Unit {0}
StartFault (database e) = Unit {0}
StartFault e = ⊥

pub data Ended (o : GatewayOutcomes) (m : Machine) (m' : Machine) (r : Result Text EnvError)
    : Type 0 where
  launched : Launched o.launched m m' r → Ended o m m' r
  unlaunched : (e : EnvError) → r ≡ err e → StartFault e → m' ≡ m → Ended o m m' r

-- A preparation that stops has one of these faults.
abbrev Prepared : Result Text EnvError → Type 0
Prepared (ok url) = Unit {0}
Prepared (err e) = StartFault e

-- ===== src/LiveSearch/Bootstrap.antt =====
-- live-search/src/bootstrap.rs, `run` with the helpers that it calls; `set` of
-- live-search/src/state.rs and the pool settings of live-search/src/db.rs. A startup changes the
-- process-wide context, the actions that were carried out and the tasks that run, the last one
-- first; what each await gives is an argument. The cache handle, the pool's instrumentation and
-- telemetry are left out of the context.
pub mod Started
use rust_web_fullstack.Prelude.{
  ℕ, Bool, true, false, leb, ◌&&◌, ◌==◌, String, Text, Option, none, some, List, [], ◌∷◌, ◌++◌,
  Result, ok, err, Stop, failed, panicked, bind_option, if◌then◌else◌,
}
use rust_web_fullstack.Config.{Config}
use rust_web_fullstack.Config.Load.{Sources, config_load}
use rust_web_fullstack.Settings.Load.{Vars}

pub record PoolTunables : Type 0 where
  pub max_connections : ℕ
  pub min_connections : ℕ
  pub acquire_timeout_secs : ℕ
  pub idle_timeout_secs : ℕ
  pub max_lifetime_secs : ℕ

pub data BootError : Type 0 where
  config pool migrations already_initialized leptos_options bind : BootError

-- The database that the pool is of, and the capacity of the broadcast channel.
pub record AppContext : Type 0 where
  pub database_url : Text
  pub capacity : ℕ

pub data Action : Type 0 where
  connected : Text → PoolTunables → Action
  migrated context_stored listener_spawned options_read : Action
  bound : ℕ → Action
  server_spawned : Action

pub data Task : Type 0 where
  pg_listener server : Task

pub record World : Type 0 where
  pub context : Option AppContext
  pub actions : List Action
  pub running : List Task

-- What the awaits give.
pub record BootOutcomes : Type 0 where
  pub connects : Bool
  pub migrates : Bool
  pub reads_options : Bool
  pub binds : Bool

abbrev pub Boot : Type 0 → Type 0
Boot A = World → World × Result A (Stop BootError)

infixl 5 ◌>>=◌ ◌>>◌
abbrev pub ◌>>=◌ : {A B : Type 0} → Boot A → (A → Boot B) → Boot B
(m >>= k) w = elim ((m w).1) [ ok a ↦ k a ((m w).0) | err e ↦ ((m w).0, err e) ]

abbrev pub ◌>>◌ : {B : Type 0} → Boot (Unit {0}) → Boot B → Boot B
m >> k = m >>= λ _. k

abbrev pub act : Bool → Action → BootError → Boot (Unit {0})
act succeeds a e w =
    if succeeds then (record w { actions = a ∷ w.actions }, ok tt) else (w, err (failed e))

-- `JoinSet::spawn`.
abbrev pub spawn : Task → Action → Boot (Unit {0})
spawn task a w = (record w { running = task ∷ w.running; actions = a ∷ w.actions }, ok tt)

-- `state::set`.
unfoldable pub set : AppContext → Boot (Unit {0})
set ctx w = elim w.context [
  | some c ↦ (w, err (failed already_initialized))
  | none ↦ (record w { context = some ctx; actions = context_stored ∷ w.actions }, ok tt)
]

-- `Config::load` with `?`.
load_config : Vars → Sources → Boot Config
load_config var sources w =
    (w, elim (config_load var sources) [ ok cfg ↦ ok cfg | err e ↦ err (failed config) ])

-- `broadcast::channel` panics at 0 and above `usize::MAX / 2`.
channel : ℕ → Boot (Unit {0})
channel capacity w =
    (w, if leb 1 capacity && leb capacity 9_223_372_036_854_775_807 then ok tt else err panicked)

unfoldable pub database_settings : Vars → Config → Text × PoolTunables
database_settings var cfg = (
  elim (var "DATABASE_URL") [ none ↦ cfg.live_search.database_url | some url ↦ url ],
  record {
    max_connections = cfg.live_search.pool_max_connections;
    min_connections = cfg.live_search.pool_min_connections;
    acquire_timeout_secs = cfg.live_search.pool_acquire_timeout_secs;
    idle_timeout_secs = cfg.live_search.pool_idle_timeout_secs;
    max_lifetime_secs = cfg.live_search.pool_max_lifetime_secs;
  },
)

module _ (parse_u16 : Text → Option ℕ) where
  -- The port of `listener_addr`; the address is 0.0.0.0.
  unfoldable pub listener_addr : Vars → ℕ → ℕ
  listener_addr var default_port =
      let value : Option Text = elim (var "PORT") [
        | some port ↦ some port
        | none ↦ var "LIVE_SEARCH_PORT"
      ] in
      elim (bind_option value parse_u16) [ none ↦ default_port | some port ↦ port ]

  -- `run` up to the handle; its pool is that of the last context.
  startup : BootOutcomes → Vars → Sources → Boot (Text × PoolTunables)
  unfolding load_config channel set database_settings listener_addr
  startup io var sources = do
    cfg ← load_config var sources
    act io.connects (connected (database_settings var cfg).0 (database_settings var cfg).1) pool
    act io.migrates migrated migrations
    channel cfg.live_search.sse_broadcast_buffer
    set (record {
      database_url = (database_settings var cfg).0;
      capacity = cfg.live_search.sse_broadcast_buffer;
    })
    spawn pg_listener listener_spawned
    act io.reads_options options_read leptos_options
    act io.binds (bound (listener_addr var cfg.live_search.port)) bind
    spawn server server_spawned
    λ w. (w, ok (database_settings var cfg))

  -- An early return drops the JoinSet, which aborts its tasks.
  settle :
      World
      → World × Result (Text × PoolTunables) (Stop BootError)
      → World × Result (Text × PoolTunables) (Stop BootError)
  settle before (w, ok handle) = (w, ok handle)
  settle before (w, err e) = (record w { running = before.running }, err e)

  unfoldable pub run : BootOutcomes → Vars → Sources → Boot (Text × PoolTunables)
  unfolding startup settle
  run io var sources w = settle w (startup io var sources w)

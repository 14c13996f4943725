-- ===== src/Gateway/Main.antt =====
-- `main` of gateway/src/main.rs, from the arguments to the end of the server, with the three
-- service modules of gateway/src/services. What an await gives is an argument; telemetry is left
-- out.
pub mod Loaded
pub mod Prepared
pub mod Serving
use rust_web_fullstack.Prelude.{
  ℕ, Bool, true, false, not, ◌||◌, String, Text, Option, none, some, List, [], ◌∷◌, Result, ok, err,
  Stop, failed, panicked, ◌>>=◌, ◌>>◌, ok_or, map_err, refuse_if, if◌then◌else◌,
}
use rust_web_fullstack.Prelude.Int.{ℤ}
use rust_web_fullstack.Domain.{Uuid}
use rust_web_fullstack.Config.{Config}
use rust_web_fullstack.Config.Load.{Sources, config_load}
use rust_web_fullstack.Settings.{Settings, try_i64, apply_runtime_config}
use rust_web_fullstack.Settings.Load.{KeyLibrary, KeyPair, Vars, load, load_dev_keys_from_env}
use rust_web_fullstack.Gateway.State.{GatewayState, ServiceModule, passed}
use rust_web_fullstack.Gateway.Build.{dev_keys, gateway_state}
use rust_web_fullstack.Gateway.Cors.{CorsLibrary, cors_layer}

abbrev search_service : ServiceModule
search_service = record {
  name = "search";
  path = "search";
  description = "Mock search service — simulates a SearXRS2-style API endpoint";
  enabled = true;
  health_check = passed;
}

abbrev proxy_service : ServiceModule
proxy_service = record {
  name = "proxy";
  path = "proxy";
  description = "IP proxy / VPN check via upstream API";
  enabled = true;
  health_check = passed;
}

abbrev monitor_service : ServiceModule
monitor_service = record {
  name = "monitor";
  path = "monitor";
  description = "Mock monitor dashboard — redirects to /health";
  enabled = true;
  health_check = passed;
}

abbrev pub service_modules : List ServiceModule
service_modules = search_service ∷ proxy_service ∷ monitor_service ∷ []

pub data MainError : Type 0 where
  dev_keys_refused config lifetime database_url connect migrations bind serve : MainError
  settings gateway : String → MainError

-- What the two blocks of `shutdown_signal` meet, if they come to anything.
pub record Signals : Type 0 where
  -- `ctrl_c` came, or could not be awaited.
  pub ctrl_c : Option (Result (Unit {0}) (Unit {0}))
  -- Whether the handler of SIGTERM could be installed, and whether the signal came.
  pub terminate : Result Bool (Unit {0})

-- Whether a block ends: an error is logged, and ends it as the signal does.
ends : Option (Result (Unit {0}) (Unit {0})) → Bool
ends none = false
ends (some (ok u)) = true
ends (some (err e)) = true

terminated : Result Bool (Unit {0}) → Bool
terminated (ok came) = came
terminated (err e) = true

-- Whether `shutdown_signal` completes.
unfoldable pub shutdown_signal : Signals → Bool
unfolding ends terminated
shutdown_signal s = ends s.ctrl_c || terminated s.terminate

pub record Setup : Type 0 where
  pub args : List Text
  pub vars : Vars
  pub sources : Sources
  pub keys : KeyLibrary
  pub generated : Option KeyPair
  pub parse_uuid : Text → Option Uuid
  pub cors : CorsLibrary
  pub connects : Bool
  pub migrates : Bool
  pub client_builds : Bool
  pub binds : Bool
  pub serves : Bool
  pub signals : Signals

pub load_settings : Setup → Bool → Result Settings String
load_settings s asked =
    if asked
    then load_dev_keys_from_env s.keys s.parse_uuid s.vars s.generated
    else load s.keys s.parse_uuid s.vars

fail_as : {A : Type 0} {E : Type 0} → (E → MainError) → Result A E → Result A (Stop MainError)
fail_as f r = map_err (λ e. failed (f e)) r

-- `create_db_pool`.
create_db_pool : Setup → Result (Unit {0}) (Stop MainError)
create_db_pool s = do
  url ← ok_or (failed database_url) (s.vars "DATABASE_URL")
  refuse_if (not s.connects) (failed connect)

-- `build_gateway_with_settings` as far as it can refuse: the state, and the CORS layer.
build : Setup → Config → Settings → ℤ → Result GatewayState (Stop MainError)
unfolding fail_as
build s cfg settings_of refresh_ttl = do
  (state, paths) ← fail_as gateway (
      gateway_state s.client_builds service_modules settings_of cfg.gateway.proxy_upstream_url true
        refresh_ttl settings_of.access_token_ttl_secs)
  layer ← ok_or panicked (cors_layer s.cors state.settings.allowed_origins)
  ok state

-- `main` up to the server, which is given the state and the port.
unfoldable pub prepare : Setup → Result (GatewayState × ℕ) (Stop MainError)
unfolding fail_as create_db_pool build
prepare s = do
  asked ← fail_as (λ e. dev_keys_refused) (dev_keys s.args (s.vars "ALLOW_DEV_KEYS"))
  cfg ← fail_as (λ e. config) (config_load s.vars s.sources)
  refresh_ttl ← ok_or (failed lifetime) (try_i64 cfg.gateway.refresh_token_ttl_secs)
  loaded ← fail_as settings (load_settings s asked)
  settings_of ← fail_as settings (apply_runtime_config loaded cfg.gateway)
  create_db_pool s
  refuse_if (not s.migrates) (failed migrations)
  state ← build s cfg settings_of refresh_ttl
  refuse_if (not s.binds) (failed bind)
  ok (state, cfg.gateway.port)

-- How far a run has come.
pub data Run : Type 0 where
  refused : Stop MainError → Run
  serving stopped : GatewayState → ℕ → Run

serve_until : Setup → Result (GatewayState × ℕ) (Stop MainError) → Run
serve_until s (err e) = refused e
serve_until s (ok (state, port)) =
    if not s.serves
    then refused (failed serve)
    else if shutdown_signal s.signals
    then stopped state port
    else serving state port

unfoldable pub main : Setup → Run
unfolding serve_until
main s = serve_until s (prepare s)

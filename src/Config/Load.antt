-- ===== src/Config/Load.antt =====
-- `Config::load` and `Config::load_from` of crates/config/src/lib.rs.
use rust_web_fullstack.Prelude.{
  Bool, true, not, String, Text, codes, Option, none, some, List, [], ◌∷◌, Result, ok, ◌>>=◌, ◌>>◌,
  map_err, refuse_if,
}
use rust_web_fullstack.Config.{
  Config, ConfigError, load, config_path_not_found, Value, int, text, bool, i64_default, validate,
  default_origins, default_database_url, default_gateway_sse_broadcast_buffer,
  default_gateway_refresh_token_ttl_secs, default_gateway_access_token_ttl_secs,
  default_pool_max_connections, default_pool_min_connections, default_pool_acquire_timeout_secs,
  default_pool_idle_timeout_secs, default_pool_max_lifetime_secs,
  default_live_search_sse_broadcast_buffer,
}

abbrev pub Environment : Type 0
Environment = Option (List (Text × Text))

pub record Sources : Type 0 where
  -- `Path::new(path).exists()`
  pub path_exists : Text → Bool
  -- The builder with these defaults, this TOML file, if there is one, and the variables under RWF_,
  -- built and deserialized. The environment is the process's own where it is `none`.
  pub build : List (String × Value) → Text → Environment → Result Config (Unit {0})

unfoldable pub defaults : Result (List (String × Value)) ConfigError
unfolding i64_default
defaults = do
  gateway_buffer ← i64_default default_gateway_sse_broadcast_buffer "gateway.sse_broadcast_buffer"
  refresh_ttl ← i64_default default_gateway_refresh_token_ttl_secs "gateway.refresh_token_ttl_secs"
  access_ttl ← i64_default default_gateway_access_token_ttl_secs "gateway.access_token_ttl_secs"
  acquire ← i64_default default_pool_acquire_timeout_secs "live_search.pool_acquire_timeout_secs"
  idle ← i64_default default_pool_idle_timeout_secs "live_search.pool_idle_timeout_secs"
  lifetime ← i64_default default_pool_max_lifetime_secs "live_search.pool_max_lifetime_secs"
  search_buffer ←
      i64_default default_live_search_sse_broadcast_buffer "live_search.sse_broadcast_buffer"
  ok (
      ("gateway.port", int 3001)
      ∷ ("gateway.proxy_upstream_url", text "https://ipapi.co")
      ∷ ("gateway.cors.allowed_origins", text default_origins)
      ∷ ("gateway.session.cookie_secure", bool true)
      ∷ ("gateway.sse_broadcast_buffer", int gateway_buffer)
      ∷ ("gateway.refresh_token_ttl_secs", int refresh_ttl)
      ∷ ("gateway.access_token_ttl_secs", int access_ttl)
      ∷ ("live_search.port", int 3000)
      ∷ ("live_search.database_url", text default_database_url)
      ∷ ("live_search.pool_max_connections", int default_pool_max_connections)
      ∷ ("live_search.pool_min_connections", int default_pool_min_connections)
      ∷ ("live_search.pool_acquire_timeout_secs", int acquire)
      ∷ ("live_search.pool_idle_timeout_secs", int idle)
      ∷ ("live_search.pool_max_lifetime_secs", int lifetime)
      ∷ ("live_search.sse_broadcast_buffer", int search_buffer)
      ∷ [])

abbrev pub path_missing : Sources → Option Text → Result (Unit {0}) ConfigError
path_missing sources none = ok tt
path_missing sources (some path) =
    refuse_if (not (sources.path_exists path)) (config_path_not_found path)

abbrev pub path_or_default : Option Text → Text
path_or_default none = codes "config.toml"
path_or_default (some path) = path

unfoldable pub load_from : Sources → Option Text → Environment → Result Config ConfigError
load_from sources config_path environment = do
  path_missing sources config_path
  values ← defaults
  cfg ← map_err (λ _. load) (sources.build values (path_or_default config_path) environment)
  validate cfg
  ok cfg

-- `Config::load`, over the process's variables.
abbrev pub config_load : (String → Option Text) → Sources → Result Config ConfigError
config_load var sources = load_from sources (var "RWF_CONFIG") none

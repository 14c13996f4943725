-- ===== src/Gateway/Build/Accepts.antt =====
-- A validated configuration is one that the gateway starts with: gateway/src/gateway.rs and
-- gateway/src/main.rs over crates/config/src/lib.rs.
use rust_web_fullstack.Prelude.{Bool, true, false, String, List, ok, ◌≡◌, refl, arith}
use rust_web_fullstack.Prelude.Int.{pos}
use rust_web_fullstack.Config.{Config}
use rust_web_fullstack.Config.Validity.{IsValid}
use rust_web_fullstack.Settings.{Settings, try_i64, apply_runtime_config}
use rust_web_fullstack.Gateway.State.{GatewayState, ServiceModule}
use rust_web_fullstack.Gateway.Build.{
  service_infos, enabled_service_router, gateway_state, build_gateway, start,
}

-- What the state takes over from the configuration.
pub record Reflects (c : Config) (state : GatewayState) : Type 0 where
  pub refresh_ttl : state.refresh_token_ttl_secs ≡ pos c.gateway.refresh_token_ttl_secs
  pub access_ttl : state.access_token_ttl_secs ≡ pos c.gateway.access_token_ttl_secs
  pub issued_ttl : state.settings.access_token_ttl_secs ≡ pos c.gateway.access_token_ttl_secs
  pub origins : state.settings.allowed_origins ≡ c.gateway.cors.allowed_origins
  pub cookie : state.settings.session.cookie_secure ≡ c.gateway.session.cookie_secure
  pub upstream : state.proxy_upstream_url ≡ c.gateway.proxy_upstream_url

-- The settings and the state that a configuration leads to.
abbrev pub configured : Config → Settings → Settings
configured c loaded = record loaded {
  access_token_ttl_secs = pos c.gateway.access_token_ttl_secs;
  allowed_origins = c.gateway.cors.allowed_origins;
  sse_broadcast_buffer = c.gateway.sse_broadcast_buffer;
  session = record {
    cookie_secure = c.gateway.session.cookie_secure;
    cookie_name = loaded.session.cookie_name;
    csrf_cookie_name = loaded.session.csrf_cookie_name;
  };
}

abbrev pub started : Bool → List ServiceModule → Config → Settings → GatewayState
started pool modules c loaded = record {
  services = service_infos modules;
  modules = modules;
  settings = configured c loaded;
  proxy_upstream_url = c.gateway.proxy_upstream_url;
  db_pool = pool;
  refresh_token_ttl_secs = pos c.gateway.refresh_token_ttl_secs;
  access_token_ttl_secs = pos c.gateway.access_token_ttl_secs;
}

module _ (modules : List ServiceModule) (c : Config) (loaded : Settings) (v : IsValid c) where
  start_ok :
      start true modules c loaded
      ≡ ok (started true modules c loaded, enabled_service_router modules)
  unfolding start try_i64 apply_runtime_config gateway_state
  start_ok = ground arith

  build_gateway_ok :
      build_gateway true modules c loaded
      ≡ ok (started false modules c loaded, enabled_service_router modules)
  unfolding build_gateway try_i64 gateway_state
  build_gateway_ok = ground arith

-- With a validated configuration and an HTTP client that builds, neither `main` nor `build_gateway`
-- refuses, whatever the modules and the loaded settings; the state of each takes its lifetimes,
-- origins, cookie flag and upstream from the configuration, and only `main`'s has a pool.
pub start-Reflects :
    (modules : List ServiceModule) (c : Config) (loaded : Settings)
    → IsValid c
    → ((state : GatewayState) × (paths : List String) × (start true modules c loaded
          ≡ ok (state, paths))
        × Reflects c state
        × (state.db_pool ≡ true))
      × ((state : GatewayState) × (paths : List String) × (build_gateway true modules c loaded
            ≡ ok (state, paths))
          × Reflects c state
          × (state.db_pool ≡ false))
start-Reflects modules c loaded v = (
  (
    started true modules c loaded,
    enabled_service_router modules,
    start_ok modules c loaded v,
    reflects true,
    refl,
  ),
  (
    started false modules c loaded,
    enabled_service_router modules,
    build_gateway_ok modules c loaded v,
    reflects false,
    refl,
  ),
)
  where
    reflects : (pool : Bool) → Reflects c (started pool modules c loaded)
    reflects pool = record {
      refresh_ttl = refl;
      access_ttl = refl;
      issued_ttl = refl;
      origins = refl;
      cookie = refl;
      upstream = refl;
    }

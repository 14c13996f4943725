-- ===== src/Gateway/Build.antt =====
-- Building the shared state: `service_infos`, `enabled_service_router`, `gateway_state` and the
-- configuration part of `build_gateway` in gateway/src/gateway.rs, and of `main` in
-- gateway/src/main.rs. The HTTP client's builder may fail, an argument here.
pub mod Accepts
use rust_web_fullstack.Prelude.{
  ℕ, Bool, true, false, not, ◌&&◌, ◌||◌, ◌==◌, String, Text, text_eq, codes, Option, none, some,
  List, map, keep, Result, ok, err, ◌>>=◌, ◌>>◌, ok_or, refuse_if, any, if◌then◌else◌,
}
use rust_web_fullstack.Prelude.Int.{ℤ, pos, ltb_ℤ}
use rust_web_fullstack.Config.{Config}
use rust_web_fullstack.Settings.{Settings, try_i64, apply_runtime_config}
use rust_web_fullstack.Gateway.State.{GatewayState, ServiceModule, ServiceInfo}

unfoldable pub service_infos : List ServiceModule → List ServiceInfo
service_infos =
    map
      λ m. record { name = m.name; path = m.path; description = m.description; enabled = m.enabled }

-- The prefixes under which the enabled modules' routers are nested, in order, less the slash.
unfoldable pub enabled_service_router : List ServiceModule → List String
enabled_service_router modules = map (λ m. m.path) (keep (λ m. m.enabled) modules)

unfoldable pub gateway_state :
    Bool
    → List ServiceModule
    → Settings
    → Text
    → Bool
    → ℤ
    → ℤ
    → Result (GatewayState × List String) String
unfolding service_infos enabled_service_router
gateway_state client_builds modules settings proxy_upstream_url db_pool refresh_ttl access_ttl = do
  refuse_if (not (ltb_ℤ (pos 0) refresh_ttl) || not (ltb_ℤ (pos 0) access_ttl))
      "gateway token TTLs must be positive"
  refuse_if (settings.sse_broadcast_buffer == 0)
      "gateway SSE broadcast buffer must be greater than zero"
  refuse_if (not client_builds) "failed to build reqwest client"
  ok (
    record {
      services = service_infos modules;
      modules = modules;
      settings = record settings { access_token_ttl_secs = access_ttl };
      proxy_upstream_url = proxy_upstream_url;
      db_pool = db_pool;
      refresh_token_ttl_secs = refresh_ttl;
      access_token_ttl_secs = access_ttl;
    },
    enabled_service_router modules,
  )

-- `build_gateway`, from the loaded configuration and settings to the state; no pool.
unfoldable pub build_gateway :
    Bool → List ServiceModule → Config → Settings → Result (GatewayState × List String) String
build_gateway client_builds modules cfg loaded = do
  refresh_ttl ←
      ok_or "gateway.refresh_token_ttl_secs exceeds i64::MAX"
        (try_i64 cfg.gateway.refresh_token_ttl_secs)
  access_ttl ←
      ok_or "gateway.access_token_ttl_secs exceeds i64::MAX"
        (try_i64 cfg.gateway.access_token_ttl_secs)
  gateway_state client_builds modules
      (record loaded {
        access_token_ttl_secs = access_ttl;
        allowed_origins = cfg.gateway.cors.allowed_origins;
        sse_broadcast_buffer = cfg.gateway.sse_broadcast_buffer;
        session = record {
          cookie_secure = cfg.gateway.session.cookie_secure;
          cookie_name = loaded.session.cookie_name;
          csrf_cookie_name = loaded.session.csrf_cookie_name;
        };
      })
      cfg.gateway.proxy_upstream_url false refresh_ttl access_ttl

-- `main`, from the loaded configuration and settings to the state, with the pool that it connected.
unfoldable pub start :
    Bool → List ServiceModule → Config → Settings → Result (GatewayState × List String) String
start client_builds modules cfg loaded = do
  refresh_ttl ←
      ok_or "gateway.refresh_token_ttl_secs exceeds i64::MAX"
        (try_i64 cfg.gateway.refresh_token_ttl_secs)
  settings ← apply_runtime_config loaded cfg.gateway
  gateway_state client_builds modules settings cfg.gateway.proxy_upstream_url true refresh_ttl
      settings.access_token_ttl_secs

-- The guard at the head of `main`: the arguments, and the value of ALLOW_DEV_KEYS.
unfoldable pub dev_keys : List Text → Option Text → Result Bool String
dev_keys args allow =
    let asked = any (text_eq (codes "--dev-keys")) args in
    if asked && not (elim allow [ none ↦ false | some v ↦ text_eq v (codes "1") ])
    then err "--dev-keys requires ALLOW_DEV_KEYS=1 to be set; refusing to start"
    else ok asked

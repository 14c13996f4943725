-- ===== src/Gateway/Routes.antt =====
-- gateway/src/gateway.rs, `build_gateway_with_settings`: the routes with their layers; and `router`
-- of gateway/src/session.rs. axum's router is the interface `RouterApi`. A layer is named, not run.
-- The routers of the service modules and of Swagger UI are arguments. The layer of the feature
-- "otel" is left out.
pub mod Layers
pub mod Placement
use rust_web_fullstack.Prelude.{
  ℕ, Bool, true, not, ◌&&◌, String, Text, codes, text_eq, Option, none, some, List, [], ◌∷◌, Result,
  ok, ◌>>=◌, ◌>>◌, refuse_if,
}
use rust_web_fullstack.Prelude.Int.{ℤ}
use rust_web_fullstack.Settings.{Settings}
use rust_web_fullstack.Gateway.State.{GatewayState, ServiceModule}
use rust_web_fullstack.Gateway.Build.{gateway_state}

pub data Method : Type 0 where
  get post : Method

pub data Handler : Type 0 where
  login refresh logout protected health events root metrics csrf_token whoami session_logout :
      Handler
  -- A handler of a service module or of Swagger UI.
  foreign : Text → Handler

pub data Layer : Type 0 where
  -- `GovernorLayer`: how many a second, and how many at once.
  governor : ℕ → ℕ → Layer
  -- `auth_middleware` and the CSRF middleware.
  bearer csrf : Layer
  session timeout prometheus trace cors csp : Layer

-- What axum documents of its router. `route` takes the layers that the method router was given, the
-- outermost first.
pub record RouterApi (R : Type 0) : Type 0 where
  pub new : R
  pub route : Text → Method → Handler → List Layer → R → R
  -- `self.merge(other)`.
  pub merge : R → R → R
  pub layer : Layer → R → R
  pub route_layer : Layer → R → R
  -- Which handler answers a method and a path, and the layers before it, the outermost first.
  pub finds : R → Method → Text → Option (Handler × List Layer)

abbrev pub refresh_rate_per_second : ℕ
refresh_rate_per_second = 1

abbrev pub refresh_burst_size : ℕ
refresh_burst_size = 5

module _ {R : Type 0} (api : RouterApi R) where
  abbrev pub login_router : R
  login_router = api.layer (governor 1 5) (api.route (codes "/auth/login") post login [] api.new)

  abbrev pub refresh_router : R
  refresh_router =
      api.layer (governor refresh_rate_per_second refresh_burst_size)
        (api.route (codes "/auth/refresh") post refresh [] api.new)

  abbrev pub other_router : R → R → R
  other_router service_router swagger_ui_router = api.layer (governor 10 20) (
      api.merge
        (api.merge
          (api.route (codes "/metrics") get metrics [] (
            api.route (codes "/auth/protected") get protected (csrf ∷ bearer ∷ []) (
              api.route (codes "/") get root [] (
                api.route (codes "/auth/logout") post logout (csrf ∷ bearer ∷ []) (
                  api.route (codes "/events") get events []
                    (api.route (codes "/health") get health [] api.new))))))
          service_router)
        swagger_ui_router)

  -- `session::router`.
  abbrev pub session_routes : R
  session_routes =
      api.route (codes "/session/logout") post session_logout []
        (api.route (codes "/session/whoami") get whoami [] api.new)

  unfoldable pub app : R → R → R
  app service_router swagger_ui_router = api.layer csp (
      api.layer cors (
        api.layer trace (
          api.layer prometheus (
            api.layer timeout (
              api.layer session (
                api.merge
                  (api.merge
                    (api.merge
                      (api.merge (api.route (codes "/auth/csrf") get csrf_token [] api.new)
                        login_router)
                      refresh_router)
                    (other_router service_router swagger_ui_router))
                  (api.route_layer csrf session_routes)))))))

  -- The routers of the enabled modules, nested, are those of `mount`. `governors` says whether the
  -- three configurations of the rate limits can be built.
  unfoldable pub build_gateway_with_settings :
      Bool × Bool × Bool
      → (List String → R)
      → R
      → Bool
      → List ServiceModule
      → Settings
      → Text
      → Bool
      → ℤ
      → ℤ
      → Result (GatewayState × R) String
  unfolding app
  build_gateway_with_settings governors mount swagger client_builds modules settings upstream pool
        refresh_ttl access_ttl =
      do
        built ← gateway_state client_builds modules settings upstream pool refresh_ttl access_ttl
        refuse_if (not governors.0) "failed to build login governor config"
        refuse_if (not governors.1) "failed to build refresh governor config"
        refuse_if (not governors.2) "failed to build general governor config"
        ok (built.0, app (mount (built.1)) swagger)

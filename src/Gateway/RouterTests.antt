-- ===== src/Gateway/RouterTests.antt =====
-- The gateway's routes over a router of functions.
use rust_web_fullstack.Prelude.{
  true, String, Text, codes, ◌&&◌, text_eq, none, some, List, [], ◌∷◌, ok, ◌≡◌, refl, arith,
  if◌then◌else◌,
}
use rust_web_fullstack.Prelude.Int.{pos}
use rust_web_fullstack.Gateway.State.{GatewayState}
use rust_web_fullstack.Gateway.Build.{gateway_state, service_infos, enabled_service_router}
use rust_web_fullstack.Gateway.Routes.{
  Method, post, logout, foreign, RouterApi, app, build_gateway_with_settings,
}
use rust_web_fullstack.Gateway.Routes.Layers.{Found, same_method, behind, or_found, IsRouter}
use rust_web_fullstack.Gateway.Routes.Placement.{
  wanted, path_of, method_of, IsForeign, build_gateway_with_settings-wanted,
}
use rust_web_fullstack.Gateway.Tests.{proxy, settings}

-- A router as what it finds.
abbrev Table : Type 0
Table = Method → Text → Found

abbrev tables : RouterApi Table
tables = record {
  new = λ m p. none;
  route = λ q n h ls r m p. if same_method n m && text_eq q p then some (h, ls) else r m p;
  merge = λ a b m p. or_found (a m p) (b m p);
  layer = λ l r m p. behind l (r m p);
  route_layer = λ l r m p. behind l (r m p);
  finds = λ r. r;
}

tables-IsRouter : IsRouter tables
tables-IsRouter = record {
  finds_new = λ m p. refl;
  finds_route = λ q n h ls r m p. refl;
  finds_merge = λ a b m p. refl;
  finds_layer = λ l r m p. refl;
  finds_route_layer = λ l r m p. refl;
}

-- The routers of the services: every other path is theirs.
abbrev services : List String → Table
services paths m p = some (foreign p, [])

abbrev swagger : Table
swagger m p = none

services-IsForeign : (paths : List String) → IsForeign tables (services paths)
services-IsForeign paths m p h ls e = ground arith

swagger-IsForeign : IsForeign tables swagger
swagger-IsForeign m p h ls e = ground arith

abbrev state : GatewayState
state = record {
  services = service_infos (proxy ∷ []);
  modules = proxy ∷ [];
  settings = record settings { access_token_ttl_secs = pos 60 };
  proxy_upstream_url = [];
  db_pool = true;
  refresh_token_ttl_secs = pos 60;
  access_token_ttl_secs = pos 60;
}

builds :
    build_gateway_with_settings tables
      (true, true, true)
      services
      swagger
      true
      (proxy ∷ [])
      settings
      []
      true
      (pos 60)
      (pos 60)
    ≡ ok (state, app tables (services (enabled_service_router (proxy ∷ []))) swagger)
unfolding build_gateway_with_settings gateway_state
builds = refl

finds_logout :
    app tables (services (enabled_service_router (proxy ∷ []))) swagger post (codes "/auth/logout")
    ≡ some (logout, wanted logout)
unfolding app
finds_logout = refl

build_gateway_with_settings-wanted_example :
    (wanted logout ≡ wanted logout)
    × (codes "/auth/logout" ≡ path_of logout)
    × (post ≡ method_of logout)
build_gateway_with_settings-wanted_example =
    build_gateway_with_settings-wanted tables (true, true, true) services swagger true (proxy ∷ [])
      settings [] true (pos 60) (pos 60) state
      (app tables (services (enabled_service_router (proxy ∷ []))) swagger) post
      (codes "/auth/logout") logout (wanted logout) tables-IsRouter services-IsForeign
      swagger-IsForeign builds finds_logout refl

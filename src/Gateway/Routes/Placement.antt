-- ===== src/Gateway/Routes/Placement.antt =====
-- Which layers stand before each route of the gateway: gateway/src/gateway.rs.
use rust_web_fullstack.Prelude.{
  ok, String, Result-cases, Bool, true, false, Text, codes, some, List, [], ◌∷◌, ◌≡◌, refl, arith,
  subst, inl, inr,
}
use rust_web_fullstack.Gateway.Routes.Layers.{
  IsRouter, Condition, Holds, new-Holds, route-Holds, merge-Holds, layer-Holds, route_layer-Holds,
}
use rust_web_fullstack.Prelude.Int.{ℤ}
use rust_web_fullstack.Settings.{Settings}
use rust_web_fullstack.Gateway.State.{GatewayState, ServiceModule}
use rust_web_fullstack.Gateway.Build.{gateway_state}
use rust_web_fullstack.Gateway.Routes.{
  Method, get, post, Handler, login, refresh, logout, protected, health, events, root, metrics,
  csrf_token, whoami, session_logout, foreign, Layer, governor, bearer, csrf, session, timeout,
  prometheus, trace, cors, csp, RouterApi, app, login_router, refresh_router, other_router,
  session_routes, build_gateway_with_settings,
}

-- The layers that stand before every route, the outermost first.
abbrev pub outer : List Layer → List Layer
outer inner = csp ∷ cors ∷ trace ∷ prometheus ∷ timeout ∷ session ∷ inner

-- The layers that a handler of the gateway's own wants before it.
abbrev pub wanted : Handler → List Layer
wanted login = outer (governor 1 5 ∷ [])
wanted refresh = outer (governor 1 5 ∷ [])
wanted logout = outer (governor 10 20 ∷ csrf ∷ bearer ∷ [])
wanted protected = outer (governor 10 20 ∷ csrf ∷ bearer ∷ [])
wanted health = outer (governor 10 20 ∷ [])
wanted events = outer (governor 10 20 ∷ [])
wanted root = outer (governor 10 20 ∷ [])
wanted metrics = outer (governor 10 20 ∷ [])
wanted csrf_token = outer []
wanted whoami = outer (csrf ∷ [])
wanted session_logout = outer (csrf ∷ [])
wanted (foreign name) = []

abbrev pub is_own : Handler → Bool
is_own (foreign name) = false
is_own h = true

-- A router of handlers that are not the gateway's own.
abbrev pub IsForeign : {R : Type 0} → RouterApi R → R → Type 0
IsForeign api r =
    (m : Method) (p : Text) (h : Handler) (ls : List Layer)
    → api.finds r m p ≡ some (h, ls)
    → is_own h ≡ false

abbrev pub path_of : Handler → Text
path_of login = codes "/auth/login"
path_of refresh = codes "/auth/refresh"
path_of logout = codes "/auth/logout"
path_of protected = codes "/auth/protected"
path_of health = codes "/health"
path_of events = codes "/events"
path_of root = codes "/"
path_of metrics = codes "/metrics"
path_of csrf_token = codes "/auth/csrf"
path_of whoami = codes "/session/whoami"
path_of session_logout = codes "/session/logout"
path_of (foreign name) = name

abbrev pub method_of : Handler → Method
method_of login = post
method_of refresh = post
method_of logout = post
method_of session_logout = post
method_of h = get

-- The layers, the path and the method of a handler of the gateway's own.
abbrev IsPlaced : Condition
IsPlaced m p h ls = is_own h ≡ true → (ls ≡ wanted h) × (p ≡ path_of h) × (m ≡ method_of h)

abbrev under : (List Layer → List Layer) → Condition → Condition
under f P m p h ls = P m p h (f ls)

module _ {R : Type 0} (api : RouterApi R) (v : IsRouter api) where
  placed_foreign :
      (f : List Layer → List Layer) (r : R) → IsForeign api r → Holds api v (under f IsPlaced) r
  unfolding Holds
  placed_foreign f r foreign_only m p h ls e own = ground (arith, foreign_only m p h ls e)

  -- One more route of the gateway's own, with what its handler wants.
  placed :
      (f : List Layer → List Layer) (h : Handler) (ls : List Layer) (r : R)
      → f ls ≡ wanted h
      → Holds api v (under f IsPlaced) r
      → Holds api v (under f IsPlaced) (api.route (path_of h) (method_of h) h ls r)
  placed f h ls r e rest =
      route-Holds api v _ (path_of h) (method_of h) h ls r (λ o. (e, refl, refl)) rest

  abbrev general : List Layer → List Layer
  general ls = outer (governor 10 20 ∷ ls)

  login_router-IsPlaced : Holds api v (under outer IsPlaced) (login_router api)
  login_router-IsPlaced =
      layer-Holds api v _ (governor 1 5) _ (placed _ login [] _ refl (new-Holds api v _))

  refresh_router-IsPlaced : Holds api v (under outer IsPlaced) (refresh_router api)
  refresh_router-IsPlaced =
      layer-Holds api v _ (governor 1 5) _ (placed _ refresh [] _ refl (new-Holds api v _))

  session_routes-IsPlaced :
      Holds api v (under outer IsPlaced) (api.route_layer csrf (session_routes api))
  session_routes-IsPlaced =
      route_layer-Holds api v _ csrf _
        (placed _ session_logout [] _ refl (placed _ whoami [] _ refl (new-Holds api v _)))

  own_routes : R
  own_routes = api.route (codes "/metrics") get metrics [] (
      api.route (codes "/auth/protected") get protected (csrf ∷ bearer ∷ []) (
        api.route (codes "/") get root [] (
          api.route (codes "/auth/logout") post logout (csrf ∷ bearer ∷ []) (
            api.route (codes "/events") get events []
              (api.route (codes "/health") get health [] api.new)))))

  own_routes-IsPlaced : Holds api v (under general IsPlaced) own_routes
  unfolding own_routes
  own_routes-IsPlaced = placed _ metrics [] _ refl (
      placed _ protected (csrf ∷ bearer ∷ []) _ refl (
        placed _ root [] _ refl (
          placed _ logout (csrf ∷ bearer ∷ []) _ refl
            (placed _ events [] _ refl (placed _ health [] _ refl (new-Holds api v _))))))

  other_router-IsPlaced :
      (services swagger : R)
      → IsForeign api services
      → IsForeign api swagger
      → Holds api v (under outer IsPlaced) (other_router api services swagger)
  unfolding own_routes
  other_router-IsPlaced services swagger s w = layer-Holds api v _ (governor 10 20) _ (
      merge-Holds api v _ _ _
        (merge-Holds api v _ _ _ own_routes-IsPlaced (placed_foreign general services s))
        (placed_foreign general swagger w))

  app-IsPlaced :
      (services swagger : R)
      → IsForeign api services
      → IsForeign api swagger
      → Holds api v IsPlaced (app api services swagger)
  unfolding app
  app-IsPlaced services swagger s w = layer-Holds api v _ csp _ (
      layer-Holds api v _ cors _ (
        layer-Holds api v _ trace _ (
          layer-Holds api v _ prometheus _ (
            layer-Holds api v _ timeout _ (
              layer-Holds api v _ session _ (
                merge-Holds api v _ _ _
                  (merge-Holds api v _ _ _
                    (merge-Holds api v _ _ _
                      (merge-Holds api v _ _ _
                        (placed outer csrf_token [] _ refl (new-Holds api v _))
                        login_router-IsPlaced)
                      refresh_router-IsPlaced)
                    (other_router-IsPlaced services swagger s w))
                  session_routes-IsPlaced))))))

router_built :
    {R : Type 0} (api : RouterApi R) (governors : Bool × Bool × Bool) (mount : List String → R)
    (swagger : R) (client_builds : Bool) (modules : List ServiceModule) (settings : Settings)
    (upstream : Text) (pool : Bool) (refresh_ttl access_ttl : ℤ) (state : GatewayState) (router : R)
    → build_gateway_with_settings api governors mount swagger client_builds modules settings
        upstream pool refresh_ttl access_ttl
      ≡ ok (state, router)
    → (paths : List String) × (router ≡ app api (mount paths) swagger)
unfolding build_gateway_with_settings
router_built api governors mount swagger client_builds modules settings upstream pool refresh_ttl
      access_ttl state router e =
    elim (Result-cases
      (gateway_state client_builds modules settings upstream pool refresh_ttl access_ttl)) [
        | inr (x, bad) ↦ ground arith
        | inl ((st, paths), good) ↦ (paths, ground arith)
      ]

-- Whatever the service modules and Swagger UI route, if none of their handlers is the gateway's
-- own: a handler of the gateway's own is found at its own method and path only, and behind exactly
-- the layers that it wants. Logout and the protected route stand behind the CSRF and then the
-- Bearer middleware, the session routes behind the CSRF middleware, all of them behind the session
-- layer; login and refresh have rate limits of their own.
pub build_gateway_with_settings-wanted :
    {R : Type 0} (api : RouterApi R) (governors : Bool × Bool × Bool) (mount : List String → R)
    (swagger : R) (client_builds : Bool) (modules : List ServiceModule) (settings : Settings)
    (upstream : Text) (pool : Bool) (refresh_ttl access_ttl : ℤ) (state : GatewayState) (router : R)
    (m : Method) (p : Text) (h : Handler) (ls : List Layer)
    → IsRouter api
    → ((paths : List String) → IsForeign api (mount paths))
    → IsForeign api swagger
    → build_gateway_with_settings api governors mount swagger client_builds modules settings
        upstream pool refresh_ttl access_ttl
      ≡ ok (state, router)
    → api.finds router m p ≡ some (h, ls)
    → is_own h ≡ true
    → (ls ≡ wanted h) × (p ≡ path_of h) × (m ≡ method_of h)
unfolding build_gateway_with_settings Holds
build_gateway_with_settings-wanted api governors mount swagger client_builds modules settings
      upstream pool refresh_ttl access_ttl state router m p h ls v s w built e own =
    let (paths, same) =
      router_built api governors mount swagger client_builds modules settings upstream pool
        refresh_ttl access_ttl state router built in
    app-IsPlaced api v (mount paths) swagger (s paths) w m p h ls
      (subst (λ r. api.finds r m p ≡ some (h, ls)) same e) own

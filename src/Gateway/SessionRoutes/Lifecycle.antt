-- ===== src/Gateway/SessionRoutes/Lifecycle.antt =====
-- The life of a session from login to logout: gateway/src/auth/handlers.rs, `login_handler`, with
-- the routes of gateway/src/session.rs and the Bearer middleware of gateway/src/auth/middleware.rs.
use rust_web_fullstack.Prelude.{ℕ, Bool, true, Text, codes, Option, none, some, ok, ◌≡◌, refl}
use rust_web_fullstack.Domain.{Uuid, DateTime}
use rust_web_fullstack.Gateway.State.{GatewayState}
use rust_web_fullstack.Auth.Error.{Response}
use rust_web_fullstack.Auth.Store.{Table}
use rust_web_fullstack.Auth.Refresh.{Libraries}
use rust_web_fullstack.Auth.Jwt.{JwtLibrary}
use rust_web_fullstack.Auth.Session.{SessionApi}
use rust_web_fullstack.Auth.Handlers.{
  LoginRequest, LoginResponse, LoginOutcomes, attach, login_handler,
}
use rust_web_fullstack.Auth.Handlers.Login.{attach_ok, login_handler-IsLoggedIn}
use rust_web_fullstack.Auth.Middleware.{Request, is_success, auth_middleware}
use rust_web_fullstack.Auth.Middleware.Guard.{logout_route, auth_middleware-logout}
use rust_web_fullstack.Gateway.SessionRoutes.{whoami}

module _ {S : Type 0} (api : SessionApi S) where
  -- The session reads as the user's, or as nobody's.
  abbrev pub Reads : S → Option Text → Type 0
  Reads s user = (api.get_user s).1 ≡ ok user

  -- What tower-sessions documents: a value that was inserted is read back, saving keeps it, and a
  -- flushed session has none.
  pub record IsStore : Type 0 where
    pub inserted :
        (user : Text) (s s' : S) → api.insert_user user s ≡ (s', true) → Reads s' (some user)
    pub saved :
        (user : Option Text) (s s' : S) → api.save s ≡ (s', true) → Reads s user → Reads s' user
    pub flushed : (s s' : S) → api.flush s ≡ (s', true) → Reads s' none

  whoami-eq_ok : (s : S) (user : Option Text) → Reads s user → (whoami api s).1 ≡ ok user
  unfolding whoami
  whoami-eq_ok s user e = rw e refl

  -- An attached session reads as its user's.
  attach-Reads :
      (lib : Libraries) (jwts : JwtLibrary) (parse_uuid : Text → Option Uuid) (user : Text)
      (s s' : S)
      → IsStore
      → attach lib jwts parse_uuid api user s ≡ (s', none)
      → Reads s' (some user)
  attach-Reads lib jwts parse_uuid user s s' v e =
      let (cycled, filled, written, kept) = attach_ok lib jwts parse_uuid api user s s' e in
      v.saved (some user) filled s' kept (v.inserted user cycled filled written)

  module _ (lib : Libraries) (jwts : JwtLibrary) (parse_uuid : Text → Option Uuid)
      (io : LoginOutcomes) (state : GatewayState) (request : LoginRequest) where
    -- After a login that succeeds, `/session/whoami` answers with the user id of the request; after
    -- a logout through the middleware that is answered with success, it answers with null. The
    -- session store is as tower-sessions documents; between the two the session is not touched, and
    -- the table of refresh tokens may be.
    pub login-logout_whoami :
        (t u before after : Table) (s s' s'' : S) (response : LoginResponse) (time : ℕ)
        (bearer : Request) (up : Bool) (now : DateTime) (r : Response)
        → IsStore
        → login_handler lib jwts parse_uuid api io state request (t, s) ≡ ((u, s'), ok response)
        → bearer.path ≡ codes "/auth/logout"
        → auth_middleware api jwts time state bearer (logout_route up now state) (before, s')
          ≡ ((after, s''), r)
        → is_success r.status ≡ true
        → ((whoami api s').1 ≡ ok (some request.user_id)) × ((whoami api s'').1 ≡ ok none)
    login-logout_whoami t u before after s s' s'' response time bearer up now r v e path out good =
        let done =
          login_handler-IsLoggedIn lib jwts parse_uuid api io state request t u s s' response e in
        let (claims, present, dead, gone) =
          auth_middleware-logout api jwts time state bearer up now before after s' s'' r path out
            good in
        (
          whoami-eq_ok s' (some request.user_id)
              (attach-Reads lib jwts parse_uuid request.user_id s s' v done.session),
          whoami-eq_ok s'' none (v.flushed s' s'' gone),
        )

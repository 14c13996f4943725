-- ===== src/Auth/History.antt =====
-- Histories of the table of refresh tokens: the requests of gateway/src/auth/handlers.rs that write
-- to it, in any number and order, one after another, with whatever each of them meets.
pub mod Sound
pub mod Spent
pub mod Refused
use rust_web_fullstack.Prelude.{Bool, Text, Option, List, [], ◌∷◌}
use rust_web_fullstack.Domain.{Uuid, DateTime}
use rust_web_fullstack.Gateway.State.{GatewayState}
use rust_web_fullstack.Auth.Store.{Table}
use rust_web_fullstack.Auth.Refresh.{Libraries, Outcomes}
use rust_web_fullstack.Auth.Jwt.{JwtLibrary, Claims}
use rust_web_fullstack.Auth.Session.{SessionApi}
use rust_web_fullstack.Auth.Handlers.{
  LoginRequest, LoginOutcomes, login_handler, refresh_handler, logout_handler,
}

-- What a request brings, what it meets, and for a login the session that it is given.
pub data Call (S : Type 0) : Type 0 where
  login : LoginOutcomes → LoginRequest → S → Call S
  refresh : Outcomes → DateTime → Uuid → DateTime → Text → Call S
  logout : Bool → DateTime → Claims → Call S

module _ {S : Type 0} (lib : Libraries) (jwts : JwtLibrary) (parse_uuid : Text → Option Uuid)
    (api : SessionApi S) (state : GatewayState) where
  unfoldable pub serve : Call S → Table → Table
  serve (login io request s) t = (login_handler lib jwts parse_uuid api io state request (t, s)).0.0
  serve (refresh io jwt_now jwt_jti now refresh_token) t =
      (refresh_handler lib jwts parse_uuid io jwt_now jwt_jti now state refresh_token t).0
  serve (logout up now claims) t = (logout_handler up now state claims t).0

  unfoldable pub serve_all : List (Call S) → Table → Table
  unfolding serve
  serve_all [] t = t
  serve_all (c ∷ cs) t = serve_all cs (serve c t)

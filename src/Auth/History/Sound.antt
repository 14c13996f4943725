-- ===== src/Auth/History/Sound.antt =====
-- The rules of the table of refresh tokens hold in every history: gateway/src/auth/handlers.rs and
-- gateway/src/auth/refresh.rs over migrations/100 and 101.
use rust_web_fullstack.Prelude.{Text, Option, List, [], ◌∷◌, arith}
use rust_web_fullstack.Domain.{Uuid, DateTime}
use rust_web_fullstack.Gateway.State.{GatewayState}
use rust_web_fullstack.Auth.Store.{Table}
use rust_web_fullstack.Auth.Store.Counts.{count}
use rust_web_fullstack.Auth.Refresh.{Libraries, Outcomes}
use rust_web_fullstack.Auth.Refresh.Integrity.{IsSound, rotate-IsSound}
use rust_web_fullstack.Auth.Jwt.{JwtLibrary}
use rust_web_fullstack.Auth.Session.{SessionApi}
use rust_web_fullstack.Auth.Handlers.{refresh_handler}
use rust_web_fullstack.Auth.Handlers.Rollback.{login_handler-IsSound}
use rust_web_fullstack.Auth.Handlers.Revocation.{logout_handler-IsSound}
use rust_web_fullstack.Auth.History.{Call, login, refresh, logout, serve, serve_all}

empty-IsSound : IsSound []
unfolding count
empty-IsSound = record {
  jtis = λ j. ground arith;
  digests = λ h. ground arith;
  one_live = λ f. ground arith;
  rooted = λ f e. ground arith;
  replaced_dead = ground arith;
}

refresh_handler-IsSound :
    (lib : Libraries) (jwts : JwtLibrary) (parse_uuid : Text → Option Uuid) (io : Outcomes)
    (jwt_now : DateTime) (jwt_jti : Uuid) (now : DateTime) (state : GatewayState)
    (refresh_token : Text) (t : Table)
    → IsSound t
    → IsSound (refresh_handler lib jwts parse_uuid io jwt_now jwt_jti now state refresh_token t).0
unfolding refresh_handler
refresh_handler-IsSound lib jwts parse_uuid io jwt_now jwt_jti now state refresh_token t v =
    ground (arith, rotate-IsSound lib io refresh_token now state.refresh_token_ttl_secs t v)

module _ {S : Type 0} (lib : Libraries) (jwts : JwtLibrary) (parse_uuid : Text → Option Uuid)
    (api : SessionApi S) (state : GatewayState) where
  serve-IsSound :
      (c : Call S) (t : Table) → IsSound t → IsSound (serve lib jwts parse_uuid api state c t)
  unfolding serve
  serve-IsSound (login io request s) t v =
      login_handler-IsSound lib jwts parse_uuid api io state request t s v
  serve-IsSound (refresh io jwt_now jwt_jti now refresh_token) t v =
      refresh_handler-IsSound lib jwts parse_uuid io jwt_now jwt_jti now state refresh_token t v
  serve-IsSound (logout up now claims) t v = logout_handler-IsSound up now state claims t v

  serve_all-IsSound :
      (cs : List (Call S)) (t : Table)
      → IsSound t
      → IsSound (serve_all lib jwts parse_uuid api state cs t)
  unfolding serve_all
  serve_all-IsSound [] t v = v
  serve_all-IsSound (c ∷ cs) t v =
      serve_all-IsSound cs (serve lib jwts parse_uuid api state c t) (serve-IsSound c t v)

  -- From the empty table, after any logins, refreshes and logouts, whatever each of them meets and
  -- answers: identifiers and digests are unique, every family holds its root and one live token at
  -- most, and a replaced token is never live.
  pub history-IsSound :
      (cs : List (Call S)) → IsSound (serve_all lib jwts parse_uuid api state cs [])
  history-IsSound cs = serve_all-IsSound cs [] empty-IsSound

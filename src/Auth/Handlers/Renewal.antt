-- ===== src/Auth/Handlers/Renewal.antt =====
-- gateway/src/auth/handlers.rs: `refresh_handler` after `login_handler`.
use rust_web_fullstack.Prelude.{true, Text, Option, some, ok, ◌≡◌, ◌≢◌, refl, sym, ap, ◌∙◌, arith}
use rust_web_fullstack.Prelude.Int.{ltb_ℤ}
use rust_web_fullstack.Domain.{Uuid, DateTime, as_uuid}
use rust_web_fullstack.Gateway.State.{GatewayState}
use rust_web_fullstack.Auth.Store.{Table}
use rust_web_fullstack.Auth.Refresh.{Libraries, Outcomes}
use rust_web_fullstack.Auth.Refresh.Renewal.{Goes, rotate-top}
use rust_web_fullstack.Auth.Jwt.{JwtLibrary, create_jwt}
use rust_web_fullstack.Auth.Session.{SessionApi}
use rust_web_fullstack.Auth.Handlers.{
  LoginRequest, LoginResponse, LoginOutcomes, validate_refresh, login_handler, respond_refresh,
  refresh_handler,
}
use rust_web_fullstack.Auth.Handlers.Login.{login_handler-IsLoggedIn}
use rust_web_fullstack.Auth.Handlers.Issue.{root}

-- The refresh token of a login can be exchanged, on the table that the login left and at any time
-- before the token expires: the answer has a new refresh token, made of the random bytes, and an
-- access token made for the administrator. This is when the token has an admissible length, as
-- base64 of 32 bytes has, the administrator's identifier is not nil, the access token can be made,
-- the lifetime is positive and in range, the database carries out each statement, the system gives
-- random bytes, and the new identifier and digest are unused.
pub refresh_handler-login_handler :
    {S : Type 0} (lib : Libraries) (jwts : JwtLibrary) (parse_uuid : Text → Option Uuid)
    (api : SessionApi S) (login : LoginOutcomes) (io : Outcomes) (state : GatewayState)
    (request : LoginRequest) (t u : Table) (s s' : S) (response : LoginResponse)
    (jwt_now now until : DateTime) (jwt_jti : Uuid) (token : Text)
    → login_handler lib jwts parse_uuid api login state request (t, s) ≡ ((u, s'), ok response)
    → lib.add_seconds login.now state.refresh_token_ttl_secs ≡ some until
    → ltb_ℤ now until ≡ true
    → validate_refresh response.refresh_token ≡ true
    → as_uuid state.settings.admin_user_id ≢ 0
    → create_jwt lib.add_seconds jwts jwt_now jwt_jti state.settings.admin_user_id
        state.settings.jwt_private_key_pem state.settings.access_token_ttl_secs
      ≡ ok token
    → (g : Goes lib io now state.refresh_token_ttl_secs u)
    → (refresh_handler lib jwts parse_uuid io jwt_now jwt_jti now state response.refresh_token u).1
      ≡ ok (record { token = token; refresh_token = some (lib.base64 g.bytes) })
unfolding refresh_handler respond_refresh as_uuid
refresh_handler-login_handler lib jwts parse_uuid api login io state request t u s s' response
      jwt_now now until jwt_jti token done expires early fits not_nil signed g =
    let entered =
      login_handler-IsLoggedIn lib jwts parse_uuid api login state request t u s s' response done in
    let row = root lib login entered.user response.refresh_token entered.expires_at in
    let same : entered.expires_at ≡ until = ground (arith, entered.expires) in
    let (res, answered, renewed, owner) =
      rotate-top lib io response.refresh_token now state.refresh_token_ttl_secs row t u
        entered.table refl refl (rw same early) (λ e. not_nil (sym entered.admin.admin ∙ e)) g in
    let who : res.subject ≡ state.settings.admin_user_id =
      ap (λ n. record { uuid = n }) (owner ∙ entered.admin.admin) in
    rw (fits, entered.admin.pool, answered, who, signed, renewed) refl

-- ===== src/Auth/Handlers/Login.antt =====
-- What a login guarantees: gateway/src/auth/handlers.rs, `login_handler`.
use rust_web_fullstack.Prelude.{
  refl, Result, Stop, true, String, Text, text_eq_iff, Option, none, some, ◌∷◌, ok, err, ◌≡◌, ◌≢◌,
  ◌⊎◌, inl, inr, arith, Result-cases, failed,
}
use rust_web_fullstack.Domain.{Uuid, DateTime, UserId, as_uuid, from_str}
use rust_web_fullstack.Gateway.State.{GatewayState}
use rust_web_fullstack.Auth.Error.{AppError, auth_error}
use rust_web_fullstack.Auth.Store.{Table}
use rust_web_fullstack.Auth.Refresh.{Libraries}
use rust_web_fullstack.Auth.Jwt.{JwtLibrary, create_jwt}
use rust_web_fullstack.Auth.Session.{SessionApi}
use rust_web_fullstack.Auth.Handlers.Issue.{root, issue_ok}
use rust_web_fullstack.Auth.Handlers.{
  LoginRequest, LoginResponse, LoginOutcomes, validate_login, authenticate, issue, rotate_id,
  attach, conclude, persist, admitted, login_handler,
}

-- The request is valid and names the administrator with the administrator's password.
pub record IsAdmin (parse_uuid : Text → Option Uuid) (state : GatewayState) (request : LoginRequest)
    (user : UserId) : Type 0 where
  pub valid : validate_login request ≡ true
  pub parsed : from_str parse_uuid request.user_id ≡ ok user
  pub admin : as_uuid user ≡ as_uuid state.settings.admin_user_id
  pub password : request.password ≡ state.settings.default_admin_password
  pub pool : state.db_pool ≡ true

module _ (lib : Libraries) (jwts : JwtLibrary) (parse_uuid : Text → Option Uuid)
    (io : LoginOutcomes) (state : GatewayState) where
  authenticate_ok :
      (request : LoginRequest) (user : UserId) (token : Text)
      → authenticate lib jwts parse_uuid io state request ≡ ok (user, token)
      → IsAdmin parse_uuid state request user
        × (create_jwt lib.add_seconds jwts io.jwt_now io.jwt_jti user
              state.settings.jwt_private_key_pem state.settings.access_token_ttl_secs
            ≡ ok token)
  unfolding authenticate
  authenticate_ok request user token e =
      let same = text_eq_iff request.password state.settings.default_admin_password in
      (ground (arith, same), ground arith)

-- A session that was attached has the user, and was saved.
pub attach_ok :
    {S : Type 0} (lib : Libraries) (jwts : JwtLibrary) (parse_uuid : Text → Option Uuid)
    (api : SessionApi S) (user : Text) (s s' : S)
    → attach lib jwts parse_uuid api user s ≡ (s', none)
    → (cycled : S) × (filled : S) × (api.insert_user user cycled ≡ (filled, true))
      × (api.save filled ≡ (s', true))
unfolding attach
attach_ok lib jwts parse_uuid api user s s' e =
    let cycled = (rotate_id lib jwts parse_uuid api s).0 in
    (cycled, (api.insert_user user cycled).0, ground arith, ground arith)

module _ {S : Type 0} (lib : Libraries) (jwts : JwtLibrary) (parse_uuid : Text → Option Uuid)
    (api : SessionApi S) (io : LoginOutcomes) (state : GatewayState) (request : LoginRequest)
    (t : Table) (s : S) where
  -- What a login that succeeds has checked and written.
  pub record IsLoggedIn (u : Table) (s' : S) (response : LoginResponse) : Type 0 where
    pub user : UserId
    pub expires_at : DateTime
    pub admin : IsAdmin parse_uuid state request user
    pub signed :
        create_jwt lib.add_seconds jwts io.jwt_now io.jwt_jti user
          state.settings.jwt_private_key_pem state.settings.access_token_ttl_secs
        ≡ ok response.token
    pub expires : lib.add_seconds io.now state.refresh_token_ttl_secs ≡ some expires_at
    pub table : u ≡ root lib io user response.refresh_token expires_at ∷ t
    pub session : attach lib jwts parse_uuid api request.user_id s ≡ (s', none)
    pub echoed : response.user_id ≡ request.user_id

  conclude_ok :
      (token raw : Text) (u v : Table) (s' : S) (response : LoginResponse) (a : S × Option String)
      → conclude lib jwts parse_uuid api io request token u raw a ≡ ((v, s'), ok response)
      → (a ≡ (s', none))
        × (u ≡ v)
        × (response ≡ record { token = token; refresh_token = raw; user_id = request.user_id })
  unfolding conclude
  conclude_ok token raw u v s' response (x, none) e = (ground arith, ground arith, ground arith)
  conclude_ok token raw u v s' response (x, some c) e = (ground arith, ground arith, ground arith)

  persist_ok :
      (token : Text) (user : UserId) (v : Table) (s' : S) (response : LoginResponse)
      → IsAdmin parse_uuid state request user
      → create_jwt lib.add_seconds jwts io.jwt_now io.jwt_jti user
          state.settings.jwt_private_key_pem state.settings.access_token_ttl_secs
        ≡ ok token
      → (w : Table × Result Text (Stop AppError)) → issue lib jwts parse_uuid io state user t ≡ w
      → persist lib jwts parse_uuid api io request token s w ≡ ((v, s'), ok response)
      → IsLoggedIn v s' response
  unfolding persist
  persist_ok token user v s' response admin signed (u, err x) made e = absurd (ground arith)
  persist_ok token user v s' response admin signed (u, ok raw) made e =
      let (expires_at, later, table, jti, digest) =
        issue_ok lib jwts parse_uuid io state user t u raw made in
      let (attached, same, answer) =
        conclude_ok token raw u v s' response (attach lib jwts parse_uuid api request.user_id s)
          e in
      record {
        user = user;
        expires_at = expires_at;
        admin = admin;
        signed = ground arith;
        expires = later;
        table = ground arith;
        session = attached;
        echoed = ground arith;
      }

-- A login succeeds only for a valid request that names the configured administrator with the
-- administrator's password, on a gateway with a database. It then has added exactly one row to the
-- table, the live root of a new family for that user under the digest of the token that it
-- answers with, has carried out every step of the session's part, and answers with an access token
-- made for that user.
pub login_handler-IsLoggedIn :
    {S : Type 0} (lib : Libraries) (jwts : JwtLibrary) (parse_uuid : Text → Option Uuid)
    (api : SessionApi S) (io : LoginOutcomes) (state : GatewayState) (request : LoginRequest)
    (t u : Table) (s s' : S) (response : LoginResponse)
    → login_handler lib jwts parse_uuid api io state request (t, s) ≡ ((u, s'), ok response)
    → IsLoggedIn lib jwts parse_uuid api io state request t s u s' response
unfolding login_handler
login_handler-IsLoggedIn lib jwts parse_uuid api io state request t u s s' response e =
    elim (Result-cases (authenticate lib jwts parse_uuid io state request)) [
      | inr (x, refused) ↦ ground arith
      | inl ((user, token), passed) ↦
          let (admin, signed) =
            authenticate_ok lib jwts parse_uuid io state request user token passed in
          persist_ok lib jwts parse_uuid api io state request t s token user u s' response admin
            signed (issue lib jwts parse_uuid io state user t) refl (rw (passed, admitted) at e)
    ]

-- Wrong credentials are an authentication error and change neither the table nor the session: the
-- request is valid, its user id parses, and it is not the administrator's or the password is not.
pub login_handler-refuses :
    {S : Type 0} (lib : Libraries) (jwts : JwtLibrary) (parse_uuid : Text → Option Uuid)
    (api : SessionApi S) (io : LoginOutcomes) (state : GatewayState) (request : LoginRequest)
    (w : Table × S) (user : UserId)
    → validate_login request ≡ true
    → from_str parse_uuid request.user_id ≡ ok user
    → (as_uuid user ≢ as_uuid state.settings.admin_user_id)
      ⊎ (request.password ≢ state.settings.default_admin_password)
    → login_handler lib jwts parse_uuid api io state request w ≡ (w, err (failed auth_error))
unfolding login_handler authenticate
login_handler-refuses lib jwts parse_uuid api io state request w user valid parsed wrong =
    ground (arith, text_eq_iff request.password state.settings.default_admin_password)

-- ===== src/Auth/Handlers/Refreshing.antt =====
-- What a refresh answers, and what it leaves: gateway/src/auth/handlers.rs, `refresh_handler`.
use rust_web_fullstack.Prelude.{
  true, Text, Option, none, some, Result, ok, err, ◌≡◌, inl, inr, arith, Bool-cases, Stop, ap,
}
use rust_web_fullstack.Domain.{Uuid, DateTime}
use rust_web_fullstack.Gateway.State.{GatewayState}
use rust_web_fullstack.Auth.Store.{Table, RefreshError}
use rust_web_fullstack.Auth.Refresh.{Libraries, Outcomes, RotationResult, rotate}
use rust_web_fullstack.Auth.Refresh.Rotation.{IsRotated, rotate-IsRotated}
use rust_web_fullstack.Auth.Jwt.{JwtLibrary, create_jwt}
use rust_web_fullstack.Auth.Handlers.{
  RefreshResponse, validate_refresh, respond_refresh, refresh_handler,
}

module _ (lib : Libraries) (jwts : JwtLibrary) (parse_uuid : Text → Option Uuid) (io : Outcomes)
    (jwt_now : DateTime) (jwt_jti : Uuid) (now : DateTime) (state : GatewayState)
    (refresh_token : Text) (t : Table) where
  pub record IsRefreshed (u : Table) (response : RefreshResponse) : Type 0 where
    pub rotation : RotationResult
    pub valid : validate_refresh refresh_token ≡ true
    pub pool : state.db_pool ≡ true
    pub rotated : IsRotated lib io refresh_token now state.refresh_token_ttl_secs t u rotation
    pub signed :
        create_jwt lib.add_seconds jwts jwt_now jwt_jti rotation.subject
          state.settings.jwt_private_key_pem state.settings.access_token_ttl_secs
        ≡ ok response.token
    pub handed_over : response.refresh_token ≡ some rotation.new_raw_token

  respond_ok :
      (u : Table) (rotated : Result (Option RotationResult) (Stop RefreshError))
      (response : RefreshResponse)
      → validate_refresh refresh_token ≡ true
      → state.db_pool ≡ true
      → rotate lib io refresh_token now state.refresh_token_ttl_secs t ≡ (u, rotated)
      → respond_refresh lib jwts parse_uuid jwt_now jwt_jti state rotated ≡ ok response
      → IsRefreshed u response
  unfolding respond_refresh
  respond_ok u (err x) response v p e f = ground arith
  respond_ok u (ok none) response v p e f = ground arith
  respond_ok u (ok (some r)) response v p e f = record {
    rotation = r;
    valid = v;
    pool = p;
    rotated = rotate-IsRotated lib io refresh_token now state.refresh_token_ttl_secs t u r e;
    signed = ground arith;
    handed_over = ground arith;
  }

  -- A refresh that answers 200 was asked with a payload of an admissible size, has rotated the
  -- token it was given, and hands over the new token with an access token for the rotated row's
  -- subject.
  pub refresh_handler-IsRefreshed :
      (u : Table) (response : RefreshResponse)
      → refresh_handler lib jwts parse_uuid io jwt_now jwt_jti now state refresh_token t
        ≡ (u, ok response)
      → IsRefreshed u response
  unfolding refresh_handler
  refresh_handler-IsRefreshed u response e =
      let rotated = rotate lib io refresh_token now state.refresh_token_ttl_secs t in
      elim (Bool-cases (validate_refresh refresh_token)) [
        | inr bad ↦ ground arith
        | inl good ↦ elim (Bool-cases state.db_pool) [
          | inr down ↦ ground arith
          | inl up ↦
              let left : rotated.0 ≡ u = ground arith in
              respond_ok u rotated.1 response good up (ap (λ w. (w, rotated.1)) left) (ground arith)
        ]
      ]

-- ===== src/Auth/Handlers.antt =====
-- gateway/src/auth/handlers.rs: login, refresh, logout. The world of a handler is the table of
-- refresh tokens and the request's session. A panic inside a handler ends the request.
pub mod Issue
pub mod Login
pub mod Rollback
pub mod Renewal
pub mod Revocation
pub mod Refreshing
use rust_web_fullstack.Prelude.{
  ℕ, Bool, true, false, not, ◌&&◌, ◌==◌, leb, length, List, codes, String, Text, text_eq, Option,
  none, some, Result, ok, err, ◌>>=◌, ◌>>◌, map_err, ok_or, refuse_if, if◌then◌else◌, Stop, failed,
  panicked, stop_as,
}
use rust_web_fullstack.Prelude.Int.{ℤ}
use rust_web_fullstack.Domain.{Uuid, DateTime, UserId, as_uuid, from_str}
use rust_web_fullstack.Settings.{Settings}
use rust_web_fullstack.Gateway.State.{GatewayState}
use rust_web_fullstack.Auth.Error.{AppError, auth_error, bad_request, internal, user_id}
use rust_web_fullstack.Auth.Store.{
  Row, Table, RefreshError, sqlx, insert, delete, revoke_subject, query,
}
use rust_web_fullstack.Auth.Refresh.{
  Commit, committed, lost_answer, rejected, Libraries, RotationResult, Outcomes,
  generate_raw_refresh_token, hash_refresh_token, rotate,
}
use rust_web_fullstack.Auth.Jwt.{JwtLibrary, Claims, create_jwt}
use rust_web_fullstack.Auth.Session.{SessionApi}

pub record LoginRequest : Type 0 where
  pub user_id : Text
  pub password : Text

pub record LoginResponse : Type 0 where
  pub token : Text
  pub refresh_token : Text
  pub user_id : Text

pub record RefreshResponse : Type 0 where
  pub token : Text
  pub refresh_token : Option Text

-- `#[validate(length(min, max))]`, in characters.
abbrev pub within : ℕ → ℕ → Text → Bool
within least most s = leb least (length s) && leb (length s) most

unfoldable pub validate_login : LoginRequest → Bool
validate_login r = within 1 255 r.user_id && within 12 1024 r.password

unfoldable pub validate_refresh : Text → Bool
validate_refresh refresh_token = within 43 1024 refresh_token

-- What a login meets outside: the times, the identifiers, the random bytes, how the insert ends,
-- and whether the compensating delete is carried out.
pub record LoginOutcomes : Type 0 where
  pub jwt_now : DateTime
  pub jwt_jti : Uuid
  pub random_bytes : Option (List ℕ)
  pub refresh_jti : Uuid
  pub now : DateTime
  pub inserts : Commit
  pub deletes : Bool

abbrev pub Answer : Type 0 → Type 0
Answer A = Result A (Stop AppError)

module _ (lib : Libraries) (jwts : JwtLibrary) (parse_uuid : Text → Option Uuid) where
  -- From the request to the access token and the check for a pool; nothing is written yet.
  unfoldable pub authenticate : LoginOutcomes → GatewayState → LoginRequest → Answer (UserId × Text)
  authenticate io state request = do
    refuse_if (not (validate_login request)) (failed (bad_request "invalid request payload"))
    parsed_user_id ← map_err (λ e. failed (user_id e)) (from_str parse_uuid request.user_id)
    refuse_if (not (as_uuid parsed_user_id == as_uuid state.settings.admin_user_id))
        (failed auth_error)
    refuse_if (not (text_eq request.password state.settings.default_admin_password))
        (failed auth_error)
    token ←
        create_jwt lib.add_seconds jwts io.jwt_now io.jwt_jti parsed_user_id
          state.settings.jwt_private_key_pem state.settings.access_token_ttl_secs
    refuse_if (not state.db_pool) (failed (internal "refresh-token store unavailable"))
    ok (parsed_user_id, token)

  -- The refresh token and its row: the root of a family of its own.
  new_row : LoginOutcomes → GatewayState → UserId → Answer (Row × Text)
  new_row io state user = do
    generated ←
        map_err (λ e. failed (internal "refresh token generation"))
          (generate_raw_refresh_token lib io.random_bytes io.refresh_jti)
    expires_at ← ok_or panicked (lib.add_seconds io.now state.refresh_token_ttl_secs)
    ok (
      record {
        jti = generated.1;
        family_id = generated.1;
        subject = as_uuid user;
        hashed_token = hash_refresh_token lib (generated.0);
        expires_at = expires_at;
        revoked_at = none;
        replaced_by = none;
        created_at = io.now;
      },
      generated.0,
    )

  -- The INSERT commits by itself: one that reports an error may have taken effect or not.
  settle_insert :
      Commit → Table → Result Table RefreshError → Table × Result (Unit {0}) RefreshError
  settle_insert c t (err e) = (t, err e)
  settle_insert committed t (ok u) = (u, ok tt)
  settle_insert lost_answer t (ok u) = (u, err sqlx)
  settle_insert rejected t (ok u) = (t, err sqlx)

  place : LoginOutcomes → Table → Answer (Row × Text) → Table × Answer Text
  unfolding settle_insert
  place io t (err e) = (t, err e)
  place io t (ok (row, raw)) =
      let (u, inserted) = settle_insert io.inserts t (insert true row t) in
      (u, map_err (λ e. failed (internal "refresh token insert")) inserted >> ok raw)

  -- The table with the row, and the refresh token.
  unfoldable pub issue : LoginOutcomes → GatewayState → UserId → Table → Table × Answer Text
  unfolding new_row place
  issue io state user t = place io t (new_row io state user)

  unfoldable pub remove_unissued_refresh_token : Bool → Uuid → Table → Table
  remove_unissued_refresh_token up jti t = if up then delete jti t else t

  module _ {S : Type 0} (api : SessionApi S) where
    rotate_id : S → S × Bool
    rotate_id s = if api.has_id s then api.cycle_id s else (s, true)

    -- The session part of a login; `some` names the step that failed.
    unfoldable pub attach : Text → S → S × Option String
    unfolding rotate_id
    attach user s =
        let (cycled, rotated) = rotate_id s in
        let (filled, inserted) = api.insert_user user cycled in
        let (stored, saved) = api.save filled in
        if not rotated
        then (cycled, some "session id rotation")
        else if not inserted
        then (filled, some "session insert")
        else if not saved
        then (api.clear stored, some "session save")
        else (stored, none)

    conclude :
        LoginOutcomes
        → LoginRequest
        → Text
        → Table
        → Text
        → S × Option String
        → (Table × S) × Answer LoginResponse
    conclude io request token t raw (s, none) =
        ((t, s), ok (record { token = token; refresh_token = raw; user_id = request.user_id }))
    conclude io request token t raw (s, some context) = (
      (remove_unissued_refresh_token io.deletes io.refresh_jti t, s),
      err (failed (internal context)),
    )

    persist :
        LoginOutcomes
        → LoginRequest
        → Text
        → S
        → Table × Answer Text
        → (Table × S) × Answer LoginResponse
    unfolding conclude
    persist io request token s (u, err e) = ((u, s), err e)
    persist io request token s (u, ok raw) =
        conclude io request token u raw (attach request.user_id s)

    admitted :
        LoginOutcomes
        → GatewayState
        → LoginRequest
        → Table × S
        → Answer (UserId × Text)
        → (Table × S) × Answer LoginResponse
    unfolding persist
    admitted io state request w (err e) = (w, err e)
    admitted io state request w (ok (user, token)) =
        persist io request token w.1 (issue io state user w.0)

    unfoldable pub login_handler :
        LoginOutcomes → GatewayState → LoginRequest → Table × S → (Table × S) × Answer LoginResponse
    unfolding admitted
    login_handler io state request w = admitted io state request w (authenticate io state request)

  -- After a rotation: its errors become the application's, no token is an authentication error.
  respond_refresh :
      DateTime
      → Uuid
      → GatewayState
      → Result (Option RotationResult) (Stop RefreshError)
      → Answer RefreshResponse
  respond_refresh jwt_now jwt_jti state rotated = do
    found ← map_err (stop_as (λ e. internal "refresh-token rotation")) rotated
    rotation ← ok_or (failed auth_error) found
    token ←
        create_jwt lib.add_seconds jwts jwt_now jwt_jti rotation.subject
          state.settings.jwt_private_key_pem state.settings.access_token_ttl_secs
    ok (record { token = token; refresh_token = some rotation.new_raw_token })

  unfoldable pub refresh_handler :
      Outcomes
      → DateTime
      → Uuid
      → DateTime
      → GatewayState
      → Text
      → Table
      → Table × Answer RefreshResponse
  unfolding respond_refresh
  refresh_handler io jwt_now jwt_jti now state refresh_token t =
      if not (validate_refresh refresh_token)
      then (t, err (failed (bad_request "invalid request payload")))
      else if not state.db_pool
      then (t, err (failed (internal "refresh-token store unavailable")))
      else (let (u, rotated) = rotate lib io refresh_token now state.refresh_token_ttl_secs t in
          (u, respond_refresh jwt_now jwt_jti state rotated))

-- `up` says whether the UPDATE is carried out; `now` is the database's NOW().
unfoldable pub logout_handler :
    Bool → DateTime → GatewayState → Claims → Table → Table × Result Text AppError
logout_handler up now state claims t =
    if not state.db_pool
    then (t, err (internal "refresh store unavailable"))
    else if not up
    then (t, err (internal "refresh token revocation"))
    else (revoke_subject now (as_uuid claims.sub) t, ok (codes "ok"))

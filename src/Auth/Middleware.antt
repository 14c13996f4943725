-- ===== src/Auth/Middleware.antt =====
-- gateway/src/auth/middleware.rs: the Bearer middleware around a protected route.
pub mod Guard
use rust_web_fullstack.Prelude.{
  ℕ, Bool, true, false, not, ◌&&◌, leb, ltb, String, Text, codes, text_eq, strip_prefix, Option,
  none, some, Result, ok, err, if◌then◌else◌, bind_option,
}
use rust_web_fullstack.Gateway.State.{GatewayState}
use rust_web_fullstack.Auth.Error.{AppError, Response, auth_error, internal, into_response}
use rust_web_fullstack.Auth.Jwt.{JwtLibrary, Claims, validate_jwt}
use rust_web_fullstack.Auth.Session.{SessionApi}

-- The path and the `Authorization` header of a request; the header is absent or not visible ASCII
-- where it is `none`.
pub record Request : Type 0 where
  pub path : Text
  pub authorization : Option Text

-- `StatusCode::is_success`.
abbrev pub is_success : ℕ → Bool
is_success status = leb 200 status && ltb status 300

-- `Result::ok`; the error goes to the log.
abbrev pub to_option {ℓ κ} : {A : Type ℓ} {E : Type κ} → Result A E → Option A
to_option (ok a) = some a
to_option (err e) = none

unfoldable pub bearer_claims : JwtLibrary → ℕ → GatewayState → Request → Option Claims
bearer_claims jwts time state request = bind_option request.authorization λ v.
    bind_option (strip_prefix (codes "Bearer ") v)
      λ token. to_option (validate_jwt jwts time state.settings.jwt_public_key_pem token)

-- A world holds the session beside whatever else the route changes.
module _ {W S : Type 0} (api : SessionApi S) where
  after_logout : Bool → Response → W × S → (W × S) × Response
  after_logout is_logout response (w, s) =
      if is_logout && is_success response.status
      then (let (flushed, done) = api.flush s in
          ((w, flushed), if done then response else into_response (internal "session logout")))
      else ((w, s), response)

  guarded :
      Bool → (Claims → W × S → (W × S) × Response) → W × S → Option Claims → (W × S) × Response
  guarded is_logout next w none = (w, into_response auth_error)
  guarded is_logout next w (some claims) =
      let (after, response) = next claims w in after_logout is_logout response after

  unfoldable pub auth_middleware :
      JwtLibrary
      → ℕ
      → GatewayState
      → Request
      → (Claims → W × S → (W × S) × Response)
      → W × S
      → (W × S) × Response
  unfolding guarded after_logout
  auth_middleware jwts time state request next w =
      guarded (text_eq request.path (codes "/auth/logout")) next w
        (bearer_claims jwts time state request)

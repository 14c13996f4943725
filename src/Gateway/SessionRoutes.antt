-- ===== src/Gateway/SessionRoutes.antt =====
-- gateway/src/session.rs: the routes of the cookie session; and `csrf_token_handler` of
-- gateway/src/gateway.rs. The CSRF crate's `get_or_create_token` is a parameter. A route gives the
-- session it leaves, beside its answer.
pub mod Lifecycle
use rust_web_fullstack.Prelude.{
  Text, String, Option, Result, ok, err, map_err, ok_or, ◌>>=◌, if◌then◌else◌,
}
use rust_web_fullstack.Auth.Error.{AppError, internal}
use rust_web_fullstack.Auth.Session.{SessionApi}

pub record CsrfToken : Type 0 where
  pub csrf_token : Text
  pub header : String

module _ {S : Type 0} (api : SessionApi S) where
  -- The user id of the answer, or null.
  unfoldable pub whoami : S → S × Result (Option Text) AppError
  whoami s =
      let (left, user) = api.get_user s in (left, map_err (λ e. internal "session whoami") user)

  unfoldable pub logout : S → S × Result (Unit {0}) AppError
  logout s =
      let (flushed, done) = api.flush s in
      (flushed, if done then ok tt else err (internal "session logout"))

-- `token_header` is the crate's `TOKEN_HEADER`.
unfoldable pub csrf_token_handler :
    {S : Type 0} → (S → S × Option Text) → String → S → S × Result CsrfToken AppError
csrf_token_handler get_or_create_token token_header s =
    let (left, token) = get_or_create_token s in
    (
      left,
      ok_or (internal "csrf token bootstrap") token >>= λ t.
          ok (record { csrf_token = t; header = token_header }),
    )

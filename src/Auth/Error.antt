-- ===== src/Auth/Error.antt =====
-- gateway/src/auth/error.rs: the application error and its HTTP response. The sources that an
-- error carries for the log are dropped; the texts that could reach a client are kept.
use rust_web_fullstack.Prelude.{ℕ, String, Option, some}
use rust_web_fullstack.Domain.{UserIdError}

pub data AppError : Type 0 where
  auth_error jwt token_expired invalid_signature : AppError
  bad_request upstream_unavailable internal : String → AppError
  user_id : UserIdError → AppError

-- The status, and the text under the key "error" of the JSON body, if it has that key.
pub record Response : Type 0 where
  pub status : ℕ
  pub error : Option String

unauthenticated : String → Response
unauthenticated message = record { status = 401; error = some message }

internal_error : Response
internal_error = record { status = 500; error = some "internal error" }

unfoldable pub into_response : AppError → Response
unfolding unauthenticated internal_error
into_response auth_error = unauthenticated "Authentication failed"
into_response jwt = unauthenticated "Authentication failed"
into_response token_expired = unauthenticated "Token expired"
into_response invalid_signature = unauthenticated "Invalid signature"
into_response (bad_request msg) = record { status = 400; error = some msg }
into_response (user_id e) = record { status = 400; error = some "invalid user id" }
into_response (upstream_unavailable context) = record {
  status = 502;
  error = some "upstream unavailable";
}
into_response (internal context) = internal_error

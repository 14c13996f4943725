-- ===== src/Auth/MiddlewareTests.antt =====
-- Concrete runs of the Bearer middleware of gateway/src/auth/middleware.rs.
use rust_web_fullstack.Prelude.{◌&&◌, ◌++◌, true, Text, codes, none, some, [], ◌∷◌, ◌≡◌, refl}
use rust_web_fullstack.Prelude.Int.{pos}
use rust_web_fullstack.Domain.{as_uuid}
use rust_web_fullstack.Settings.{jwt_iss, jwt_aud}
use rust_web_fullstack.Auth.Store.{Table, is_live, revoke_subject}
use rust_web_fullstack.Auth.Store.Counts.{count, of_subject}
use rust_web_fullstack.Auth.Jwt.{Claims, validate_jwt}
use rust_web_fullstack.Auth.Handlers.{logout_handler}
use rust_web_fullstack.Auth.Middleware.{Request, bearer_claims, auth_middleware}
use rust_web_fullstack.Auth.Middleware.Guard.{logout_route, auth_middleware-logout}
use rust_web_fullstack.Auth.Tests.{row, table, user}
use rust_web_fullstack.Auth.HandlerTests.{jwts, sessions, state}

abbrev bearer : Text
bearer = codes "Bearer " ++ (9 ∷ 65 ∷ 5 ∷ 77 ∷ [])

abbrev pub logout_request : Request
logout_request = record { path = codes "/auth/logout"; authorization = some bearer }

abbrev anonymous_request : Request
anonymous_request = record { path = codes "/auth/logout"; authorization = none }

abbrev pub claims : Claims
claims = record { sub = user; exp = 65; iat = 5; aud = jwt_aud; iss = jwt_iss; jti = 77 }

abbrev pub revoked_table : Table
revoked_table = record row { revoked_at = some (pos 20) } ∷ []

pub logs_out :
    auth_middleware sessions jwts 8 state logout_request
      (logout_route true (pos 20) state)
      (table, some (codes "admin"))
    ≡ ((revoked_table, none), record { status = 200; error = none })
unfolding auth_middleware bearer_claims validate_jwt logout_handler revoke_subject as_uuid
logs_out = refl

auth_middleware-logout_example :
    (c : Claims) × (bearer_claims jwts 8 state logout_request ≡ some c)
    × (count (λ x. of_subject (as_uuid c.sub) x && is_live x) revoked_table ≡ 0)
    × (sessions.flush (some (codes "admin")) ≡ (none, true))
auth_middleware-logout_example =
    auth_middleware-logout sessions jwts 8 state logout_request true (pos 20) table revoked_table
      (some (codes "admin")) none (record { status = 200; error = none }) refl logs_out refl

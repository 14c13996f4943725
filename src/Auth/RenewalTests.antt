-- ===== src/Auth/RenewalTests.antt =====
-- A login and the exchange of its token: gateway/src/auth/handlers.rs.
use rust_web_fullstack.Prelude.{codes, none, some, [], ◌∷◌, ok, ◌≡◌, refl, arith}
use rust_web_fullstack.Prelude.Int.{pos}
use rust_web_fullstack.Domain.{as_uuid, from_str}
use rust_web_fullstack.Auth.Store.{Table, insert}
use rust_web_fullstack.Auth.Refresh.{hash_refresh_token, generate_raw_refresh_token}
use rust_web_fullstack.Auth.Jwt.{create_jwt}
use rust_web_fullstack.Auth.Handlers.{
  attach, validate_refresh, issue, authenticate, attach, validate_login, LoginResponse,
  LoginOutcomes, login_handler, refresh_handler,
}
use rust_web_fullstack.Auth.Refresh.Renewal.{Goes}
use rust_web_fullstack.Auth.Handlers.Renewal.{refresh_handler-login_handler}
use rust_web_fullstack.Auth.Tests.{lib, digest, table, outcomes}
use rust_web_fullstack.Auth.HandlerTests.{
  jwts, sessions, parse_uuid, state, request, login_outcomes, response, long,
}

-- A login whose token has an admissible length, and what its exchange meets.
abbrev long_login : LoginOutcomes
long_login = record login_outcomes { random_bytes = some long }

abbrev long_table : Table
long_table =
    record {
      jti = 8;
      family_id = 8;
      subject = 5;
      hashed_token = digest long;
      expires_at = pos 3_600_000_010;
      revoked_at = none;
      replaced_by = none;
      created_at = pos 10;
    }
    ∷ table

abbrev long_response : LoginResponse
long_response = record response { refresh_token = long }

logs_in_long :
    login_handler lib jwts parse_uuid sessions long_login state request (table, none)
    ≡ ((long_table, some (codes "admin")), ok long_response)
unfolding login_handler authenticate validate_login from_str as_uuid create_jwt issue
    generate_raw_refresh_token insert hash_refresh_token attach
logs_in_long = refl

goes : Goes lib outcomes (pos 20) (pos 3_600) long_table
unfolding hash_refresh_token
goes = record {
  positive = refl;
  until = pos 3_600_000_020;
  later = refl;
  carried_out = (refl, refl, refl, refl, refl);
  bytes = 1 ∷ 2 ∷ [];
  random = refl;
  unused = refl;
}

refresh_handler-login_handler_example :
    (refresh_handler lib jwts parse_uuid outcomes
      (pos 5_000_000)
      77
      (pos 20)
      state
      long
      long_table).1
    ≡ ok (record { token = 5 ∷ 65 ∷ 5 ∷ 77 ∷ []; refresh_token = some (1 ∷ 2 ∷ []) })
unfolding create_jwt validate_refresh as_uuid goes
refresh_handler-login_handler_example =
    refresh_handler-login_handler lib jwts parse_uuid sessions long_login outcomes state request
      table long_table none (some (codes "admin")) long_response (pos 5_000_000) (pos 20)
      (pos 3_600_000_010) 77 (5 ∷ 65 ∷ 5 ∷ 77 ∷ []) logs_in_long refl refl refl
      (λ e. ground (arith, e)) refl goes

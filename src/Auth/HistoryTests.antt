-- ===== src/Auth/HistoryTests.antt =====
-- A history of logins, refreshes and logouts, and the theorems about histories at it.
use rust_web_fullstack.Prelude.{true, Text, Option, some, none, [], ◌∷◌, ok, ◌≡◌, ◌≢◌, refl, codes}
use rust_web_fullstack.Prelude.Int.{pos}
use rust_web_fullstack.Domain.{as_uuid, try_from, from_str}
use rust_web_fullstack.Auth.Store.{
  Row, Table, select_active, select_any, insert, mark_replaced, revoke_subject,
}
use rust_web_fullstack.Auth.Refresh.{rotate, hash_refresh_token, generate_raw_refresh_token}
use rust_web_fullstack.Auth.Refresh.Integrity.{IsSound}
use rust_web_fullstack.Auth.Jwt.{Claims, create_jwt}
use rust_web_fullstack.Auth.Handlers.{
  RefreshResponse, login_handler, authenticate, issue, attach, validate_login, validate_refresh,
  refresh_handler, logout_handler,
}
use rust_web_fullstack.Auth.History.{Call, login, logout, serve, serve_all}
use rust_web_fullstack.Auth.History.Sound.{history-IsSound}
use rust_web_fullstack.Auth.History.Refused.{exchanged_refused, logged_out_refused}
use rust_web_fullstack.Auth.Tests.{lib, digest, outcomes}
use rust_web_fullstack.Auth.MiddlewareTests.{claims}
use rust_web_fullstack.Auth.HandlerTests.{
  jwts, sessions, parse_uuid, state, request, login_outcomes, long,
}

-- A login that hands out the refresh token `long`.
abbrev first_login : Call (Option Text)
first_login = login (record login_outcomes { random_bytes = some long }) request none

abbrev admin_claims : Claims
admin_claims = record claims { sub = record { uuid = 5 } }

abbrev long_row : Row
long_row = record {
  jti = 8;
  family_id = 8;
  subject = 5;
  hashed_token = digest long;
  expires_at = pos 3_600_000_010;
  revoked_at = none;
  replaced_by = none;
  created_at = pos 10;
}

abbrev exchanged_table : Table
exchanged_table =
    record {
      jti = 2;
      family_id = 8;
      subject = 5;
      hashed_token = digest (1 ∷ 2 ∷ []);
      expires_at = pos 3_600_000_020;
      revoked_at = none;
      replaced_by = none;
      created_at = pos 20;
    }
    ∷ record long_row { revoked_at = some (pos 20); replaced_by = some 2 }
    ∷ []

abbrev tokens : RefreshResponse
tokens = record { token = 5 ∷ 65 ∷ 5 ∷ 77 ∷ []; refresh_token = some (1 ∷ 2 ∷ []) }

history-IsSound_example : IsSound (
    serve_all lib jwts parse_uuid sessions state
      (first_login ∷ logout true (pos 20) admin_claims ∷ [])
      [])
history-IsSound_example =
    history-IsSound lib jwts parse_uuid sessions state
      (first_login ∷ logout true (pos 20) admin_claims ∷ [])

logged_in : serve_all lib jwts parse_uuid sessions state (first_login ∷ []) [] ≡ long_row ∷ []
unfolding serve_all serve login_handler authenticate validate_login from_str as_uuid create_jwt
    issue generate_raw_refresh_token insert hash_refresh_token attach
logged_in = refl

exchanges :
    refresh_handler lib jwts parse_uuid outcomes
      (pos 5_000_000)
      77
      (pos 20)
      state
      long
      (long_row ∷ [])
    ≡ (exchanged_table, ok tokens)
unfolding refresh_handler validate_refresh rotate select_active try_from insert mark_replaced
    as_uuid create_jwt
exchanges = refl

exchanged_refused_example :
    (refresh_handler lib jwts parse_uuid outcomes (pos 5_000_000) 78 (pos 30) state long (
      serve_all lib jwts parse_uuid sessions state
        (logout true (pos 25) admin_claims ∷ [])
        exchanged_table)).1
    ≢ ok tokens
exchanged_refused_example =
    exchanged_refused lib jwts parse_uuid sessions state (first_login ∷ [])
      (logout true (pos 25) admin_claims ∷ []) outcomes outcomes (pos 5_000_000) (pos 5_000_000) 77
      78 (pos 20) (pos 30) long exchanged_table tokens tokens (rw logged_in exchanges)

logs_out_after_login :
    logout_handler true (pos 20) state admin_claims (long_row ∷ [])
    ≡ (record long_row { revoked_at = some (pos 20) } ∷ [], ok (codes "ok"))
unfolding logout_handler revoke_subject as_uuid
logs_out_after_login = refl

found_after_login : select_any (hash_refresh_token lib long) (long_row ∷ []) ≡ some long_row
unfolding select_any hash_refresh_token
found_after_login = refl

logged_out_refused_example :
    (refresh_handler lib jwts parse_uuid outcomes (pos 5_000_000) 78 (pos 30) state long (
      serve_all lib jwts parse_uuid sessions state
        (first_login ∷ [])
        (record long_row { revoked_at = some (pos 20) } ∷ []))).1
    ≢ ok tokens
unfolding as_uuid
logged_out_refused_example =
    logged_out_refused lib jwts parse_uuid sessions state (first_login ∷ []) (first_login ∷ []) true
      (pos 20) admin_claims outcomes (pos 5_000_000) 78 (pos 30) long long_row
      (record long_row { revoked_at = some (pos 20) } ∷ []) (codes "ok") tokens
      (rw logged_in found_after_login) refl (rw logged_in logs_out_after_login)

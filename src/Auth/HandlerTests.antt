-- ===== src/Auth/HandlerTests.antt =====
-- Concrete runs of the JWTs, handlers and middleware of gateway/src/auth, and the theorems about
-- them at those runs.
use rust_web_fullstack.Prelude.{
  ℕ, ◌+◌, ◌*◌, ◌≤◌, ◌<◌, ltb, length, true, false, String, Text, codes, Option, none, some, [], ◌∷◌,
  Result, ok, err, ◌≡◌, refl, arith, failed, if◌then◌else◌,
}
use rust_web_fullstack.Prelude.Int.{pos}
use rust_web_fullstack.Domain.{Uuid, as_uuid, try_from, from_str}
use rust_web_fullstack.Settings.{default_session_settings}
use rust_web_fullstack.Gateway.State.{GatewayState}
use rust_web_fullstack.Auth.Error.{internal}
use rust_web_fullstack.Auth.Store.{select_active, mark_replaced, Row, Table, insert}
use rust_web_fullstack.Auth.Refresh.{
  committed, lost_answer, rotate, hash_refresh_token, generate_raw_refresh_token,
}
use rust_web_fullstack.Auth.Jwt.{
  ErrorKind, Claims, JwtLibrary, expired_signature, create_jwt, validate_jwt,
}
use rust_web_fullstack.Auth.Jwt.RoundTrip.{AddsSeconds, IsKeyPair, validate_jwt-create_jwt}
use rust_web_fullstack.Auth.Session.{SessionApi}
use rust_web_fullstack.Auth.Handlers.{
  attach, validate_refresh, issue, authenticate, attach, validate_login, LoginRequest,
  LoginResponse, LoginOutcomes, RefreshResponse, login_handler, refresh_handler,
}
use rust_web_fullstack.Auth.Handlers.Login.{IsLoggedIn, login_handler-IsLoggedIn}
use rust_web_fullstack.Auth.Handlers.Refreshing.{IsRefreshed, refresh_handler-IsRefreshed}
use rust_web_fullstack.Auth.Tests.{lib, digest, add_seconds, row, table, outcomes, user}

-- A signer that writes the numbers of the claims, and a reader that takes the issuer and the
-- audience that it was asked for.
abbrev decode : Text → ℕ → String → String → Text → Result Claims ErrorKind
decode key time iss aud (u ∷ e ∷ i ∷ j ∷ []) =
    if ltb time e
    then ok (record { sub = record { uuid = u }; exp = e; iat = i; aud = aud; iss = iss; jti = j })
    else err expired_signature
decode key time iss aud token = err expired_signature

abbrev pub jwts : JwtLibrary
jwts = record { encode = λ key c. some (c.sub.uuid ∷ c.exp ∷ c.iat ∷ c.jti ∷ []); decode = decode }

jwts-IsKeyPair : (private public : Text) → IsKeyPair jwts private public
jwts-IsKeyPair private public c token time e before = ground (arith, e)

add_seconds-AddsSeconds : AddsSeconds add_seconds
add_seconds-AddsSeconds t n u e = ground (arith, e)

validate_jwt-create_jwt_example :
    (c : Claims) × (validate_jwt jwts 8 [] (9 ∷ 65 ∷ 5 ∷ 77 ∷ []) ≡ ok c)
    × (c.sub ≡ user)
    × (c.exp ≡ c.iat + 60)
    × (c.iat * 1_000_000 ≤ 5_000_000)
    × (5_000_000 < (c.iat + 1) * 1_000_000)
unfolding create_jwt
validate_jwt-create_jwt_example =
    validate_jwt-create_jwt add_seconds jwts 5_000_000 77 user [] [] (9 ∷ 65 ∷ 5 ∷ 77 ∷ []) 60 8
      add_seconds-AddsSeconds (jwts-IsKeyPair [] []) refl (ground arith)

-- A session store that holds the user id.
abbrev pub sessions : SessionApi (Option Text)
sessions = record {
  has_id = λ s. false;
  cycle_id = λ s. (s, true);
  insert_user = λ u s. (some u, true);
  get_user = λ s. (s, ok s);
  save = λ s. (s, true);
  clear = λ s. none;
  flush = λ s. (none, true);
}

abbrev broken_sessions : SessionApi (Option Text)
broken_sessions = record sessions { save = λ s. (s, false) }

abbrev pub parse_uuid : Text → Option Uuid
parse_uuid s = some (length s)

abbrev password : Text
password = codes "correct horse battery"

abbrev pub state : GatewayState
state = record {
  services = [];
  modules = [];
  settings = record {
    jwt_private_key_pem = [];
    jwt_public_key_pem = [];
    access_token_ttl_secs = pos 60;
    admin_user_id = record { uuid = 5 };
    default_admin_password = password;
    allowed_origins = [];
    sse_broadcast_buffer = 256;
    session = default_session_settings;
  };
  proxy_upstream_url = [];
  db_pool = true;
  refresh_token_ttl_secs = pos 3_600;
  access_token_ttl_secs = pos 60;
}

abbrev pub request : LoginRequest
request = record { user_id = codes "admin"; password = password }

abbrev pub login_outcomes : LoginOutcomes
login_outcomes = record {
  jwt_now = pos 5_000_000;
  jwt_jti = 77;
  random_bytes = some (3 ∷ 4 ∷ []);
  refresh_jti = 8;
  now = pos 10;
  inserts = committed;
  deletes = true;
}

abbrev pub logged_in_table : Table
logged_in_table =
    record {
      jti = 8;
      family_id = 8;
      subject = 5;
      hashed_token = digest (3 ∷ 4 ∷ []);
      expires_at = pos 3_600_000_010;
      revoked_at = none;
      replaced_by = none;
      created_at = pos 10;
    }
    ∷ table

abbrev pub response : LoginResponse
response = record {
  token = 5 ∷ 65 ∷ 5 ∷ 77 ∷ [];
  refresh_token = 3 ∷ 4 ∷ [];
  user_id = codes "admin";
}

pub logs_in :
    login_handler lib jwts parse_uuid sessions login_outcomes state request (table, none)
    ≡ ((logged_in_table, some (codes "admin")), ok response)
unfolding login_handler authenticate validate_login from_str as_uuid create_jwt issue
    generate_raw_refresh_token insert hash_refresh_token attach
logs_in = refl

login_handler-IsLoggedIn_example :
    IsLoggedIn lib jwts parse_uuid sessions login_outcomes state request table none logged_in_table
      (some (codes "admin"))
      response
login_handler-IsLoggedIn_example =
    login_handler-IsLoggedIn lib jwts parse_uuid sessions login_outcomes state request table
      logged_in_table none (some (codes "admin")) response logs_in

abbrev unconfirmed_login : LoginOutcomes
unconfirmed_login = record login_outcomes { inserts = lost_answer }

-- The row of an INSERT whose answer was lost stays.
left_behind :
    login_handler lib jwts parse_uuid sessions unconfirmed_login state request (table, none)
    ≡ ((logged_in_table, none), err (failed (internal "refresh token insert")))
unfolding login_handler authenticate validate_login from_str as_uuid create_jwt issue
    generate_raw_refresh_token insert hash_refresh_token
left_behind = refl

-- A refresh token of an admissible length, and its row.
abbrev pub long : Text
long = codes "0123456789012345678901234567890123456789012"

abbrev long_row : Row
long_row = record row { hashed_token = digest long }

abbrev refreshed_table : Table
refreshed_table =
    record {
      jti = 2;
      family_id = 1;
      subject = 9;
      hashed_token = digest (1 ∷ 2 ∷ []);
      expires_at = pos 3_600_000_010;
      revoked_at = none;
      replaced_by = none;
      created_at = pos 10;
    }
    ∷ record long_row { revoked_at = some (pos 10); replaced_by = some 2 }
    ∷ []

abbrev refreshed : RefreshResponse
refreshed = record { token = 9 ∷ 65 ∷ 5 ∷ 77 ∷ []; refresh_token = some (1 ∷ 2 ∷ []) }

refreshes :
    refresh_handler lib jwts parse_uuid outcomes
      (pos 5_000_000)
      77
      (pos 10)
      state
      long
      (long_row ∷ [])
    ≡ (refreshed_table, ok refreshed)
unfolding refresh_handler validate_refresh rotate select_active try_from insert mark_replaced
    as_uuid create_jwt
refreshes = refl

refresh_handler-IsRefreshed_example :
    IsRefreshed lib jwts parse_uuid outcomes
      (pos 5_000_000)
      77
      (pos 10)
      state
      long
      (long_row ∷ [])
      refreshed_table
      refreshed
refresh_handler-IsRefreshed_example =
    refresh_handler-IsRefreshed lib jwts parse_uuid outcomes (pos 5_000_000) 77 (pos 10) state long
      (long_row ∷ []) refreshed_table refreshed refreshes

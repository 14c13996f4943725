-- ===== src/Settings.antt =====
-- gateway/src/settings.rs: the gateway's settings and how the typed configuration is applied to
-- them. A key is the PEM text that it is parsed from.
mod Tests
pub mod Load
use rust_web_fullstack.Prelude.{
  ℕ, Bool, true, String, Text, codes, Option, none, some, Result, ok, ok_or, ◌>>=◌, leb,
  if◌then◌else◌,
}
use rust_web_fullstack.Config.{GatewayConfig}
use rust_web_fullstack.Prelude.Int.{ℤ, pos}
use rust_web_fullstack.Domain.{UserId}

abbrev pub jwt_iss : String
jwt_iss = "gateway-example"

abbrev pub jwt_aud : String
jwt_aud = "gateway-example-api"

pub record SessionSettings : Type 0 where
  pub cookie_secure : Bool
  pub cookie_name : Text
  pub csrf_cookie_name : Text

unfoldable pub default_session_settings : SessionSettings
default_session_settings = record {
  cookie_secure = true;
  cookie_name = codes "rwf_session";
  csrf_cookie_name = codes "rwf_csrf";
}

pub record Settings : Type 0 where
  pub jwt_private_key_pem : Text
  pub jwt_public_key_pem : Text
  pub access_token_ttl_secs : ℤ
  pub admin_user_id : UserId
  pub default_admin_password : Text
  pub allowed_origins : Text
  pub sse_broadcast_buffer : ℕ
  pub session : SessionSettings

-- `i64::try_from` of a `u64`.
unfoldable pub try_i64 : ℕ → Option ℤ
try_i64 n = if leb n 9_223_372_036_854_775_807 then some (pos n) else none

-- `Settings::apply_runtime_config`; the error's text is kept.
unfoldable pub apply_runtime_config : Settings → GatewayConfig → Result Settings String
unfolding try_i64
apply_runtime_config settings config = do
  ttl ←
      ok_or "gateway.access_token_ttl_secs exceeds i64::MAX" (try_i64 config.access_token_ttl_secs)
  ok (record settings {
    access_token_ttl_secs = ttl;
    allowed_origins = config.cors.allowed_origins;
    sse_broadcast_buffer = config.sse_broadcast_buffer;
    session = record {
      cookie_secure = config.session.cookie_secure;
      cookie_name = settings.session.cookie_name;
      csrf_cookie_name = settings.session.csrf_cookie_name;
    };
  })

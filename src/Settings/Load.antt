-- ===== src/Settings/Load.antt =====
-- gateway/src/settings.rs: `Settings::load`, `load_dev_keys` and `load_dev_keys_from_env`. The
-- variables of the process are a function; parsing, generating and encoding keys are parameters.
-- The fingerprints that go to the log are left out. An error is its own text, its sources dropped.
pub mod Accepts
pub mod DevKeys
use rust_web_fullstack.Prelude.{
  ℕ, Bool, true, false, not, ◌||◌, String, Text, codes, is_empty, strip_prefix, Option, none, some,
  List, Result, ok, ◌>>=◌, ◌>>◌, map_err, ok_or, refuse_if,
}
use rust_web_fullstack.Prelude.Int.{pos}
use rust_web_fullstack.Domain.{Uuid, from_str}
use rust_web_fullstack.Settings.{Settings, default_session_settings}
use rust_web_fullstack.Gateway.Pem.{ed25519_spki_der, pem_encode}

abbrev pub default_admin_user_id : String
default_admin_user_id = "00000000-0000-0000-0000-000000000001"

abbrev pub default_origins : String
default_origins = "http://localhost:3000,http://localhost:3001,http://localhost:3002"

-- What the libraries do with keys.
pub record KeyLibrary : Type 0 where
  -- Whether `EncodingKey::from_ed_pem` and `DecodingKey::from_ed_pem` take a PEM text.
  pub from_ed_private : Text → Bool
  pub from_ed_public : Text → Bool
  pub base64_encode : List ℕ → Text

-- A generated key pair: its PKCS#8 document, which may fail to be encoded, and its public key.
pub record KeyPair : Type 0 where
  pub to_pkcs8v1 : Option (List ℕ)
  pub public_key : List ℕ

-- `std::env::var`; a variable that is not set, or not Unicode, is `none`.
abbrev pub Vars : Type 0
Vars = String → Option Text

abbrev pub unwrap_or : Option Text → String → Text
unwrap_or none default = codes default
unwrap_or (some v) default = v

-- `str::starts_with`.
abbrev pub starts_with : Text → Text → Bool
starts_with prefix s = elim (strip_prefix prefix s) [ none ↦ false | some rest ↦ true ]

abbrev pub lacks_pem : Text → Bool
lacks_pem s = is_empty s || not (starts_with (codes "-----BEGIN ") s)

module _ (keys : KeyLibrary) (parse_uuid : Text → Option Uuid) where
  unfoldable pub load : Vars → Result Settings String
  load var = do
    jwt_private_key_pem ← ok_or "JWT_PRIVATE_KEY_PEM must be set" (var "JWT_PRIVATE_KEY_PEM")
    jwt_public_key_pem ← ok_or "JWT_PUBLIC_KEY_PEM must be set" (var "JWT_PUBLIC_KEY_PEM")
    default_admin_password ← ok_or "ADMIN_PASSWORD must be set" (var "ADMIN_PASSWORD")
    refuse_if (lacks_pem jwt_private_key_pem)
        "JWT_PRIVATE_KEY_PEM must contain PEM-encoded key material"
    refuse_if (lacks_pem jwt_public_key_pem)
        "JWT_PUBLIC_KEY_PEM must contain PEM-encoded key material"
    refuse_if (is_empty default_admin_password) "ADMIN_PASSWORD must not be empty"
    refuse_if (not (keys.from_ed_private jwt_private_key_pem))
        "failed to parse EdDSA private key PEM"
    refuse_if (not (keys.from_ed_public jwt_public_key_pem)) "failed to parse EdDSA public key PEM"
    admin_user_id ←
        map_err (λ e. "invalid ADMIN_USER_ID")
          (from_str parse_uuid (unwrap_or (var "ADMIN_USER_ID") default_admin_user_id))
    ok (record {
      jwt_private_key_pem = jwt_private_key_pem;
      jwt_public_key_pem = jwt_public_key_pem;
      access_token_ttl_secs = pos 900;
      admin_user_id = admin_user_id;
      default_admin_password = default_admin_password;
      allowed_origins = codes default_origins;
      sse_broadcast_buffer = 256;
      session = record default_session_settings {
        cookie_name = unwrap_or (var "SESSION_COOKIE_NAME") "rwf_session";
        csrf_cookie_name = unwrap_or (var "CSRF_COOKIE_NAME") "rwf_csrf";
      };
    })

  -- The end of `load_dev_keys`, on the texts of its keys.
  unfoldable pub with_dev_keys : Text → Text → Text → Result Settings String
  with_dev_keys private_pem public_pem admin_password = do
    refuse_if (not (keys.from_ed_private private_pem)) "failed to parse dev EdDSA private key PEM"
    refuse_if (not (keys.from_ed_public public_pem)) "failed to parse dev EdDSA public key PEM"
    admin_user_id ←
        map_err (λ e. "built-in development admin user id is invalid")
          (from_str parse_uuid (codes default_admin_user_id))
    ok (record {
      jwt_private_key_pem = private_pem;
      jwt_public_key_pem = public_pem;
      access_token_ttl_secs = pos 900;
      admin_user_id = admin_user_id;
      default_admin_password = admin_password;
      allowed_origins = codes default_origins;
      sse_broadcast_buffer = 256;
      session = record default_session_settings { cookie_secure = false };
    })

  -- `generated` is what `Ed25519KeyPair::generate` gives.
  unfoldable pub load_dev_keys : Option KeyPair → Text → Result Settings String
  unfolding with_dev_keys
  load_dev_keys generated admin_password = do
    refuse_if (is_empty admin_password) "admin_password must not be empty"
    key_pair ← ok_or "Ed25519 key generation failed" generated
    pkcs8_doc ← ok_or "Ed25519 PKCS#8 v1 encoding failed" key_pair.to_pkcs8v1
    with_dev_keys (pem_encode keys.base64_encode (codes "PRIVATE KEY") pkcs8_doc)
        (pem_encode keys.base64_encode (codes "PUBLIC KEY") (ed25519_spki_der key_pair.public_key))
        admin_password

  unfoldable pub load_dev_keys_from_env : Vars → Option KeyPair → Result Settings String
  load_dev_keys_from_env var generated = do
    admin_password ←
        ok_or "ADMIN_PASSWORD must be set when --dev-keys is used" (var "ADMIN_PASSWORD")
    load_dev_keys generated admin_password

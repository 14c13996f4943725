-- ===== src/Settings/Tests.antt =====
-- An environment with keys, and the keys of a development run, of gateway/src/settings.rs.
use rust_web_fullstack.Prelude.{
  true, false, Text, codes, text_eq, length, Option, none, some, [], ◌∷◌, ok, ◌≡◌, ◌↔◌, refl,
  if◌then◌else◌,
}
use rust_web_fullstack.Prelude.Int.{pos}
use rust_web_fullstack.Domain.{Uuid, from_str, try_from}
use rust_web_fullstack.Settings.{Settings, default_session_settings}
use rust_web_fullstack.Settings.Load.{
  KeyLibrary, KeyPair, Vars, default_origins, load, load_dev_keys, with_dev_keys,
}
use rust_web_fullstack.Settings.Load.Accepts.{IsLoaded, load_iff}
use rust_web_fullstack.Settings.Load.DevKeys.{private_pem, public_pem, load-load_dev_keys}

abbrev keys : KeyLibrary
keys = record {
  from_ed_private = λ pem. true;
  from_ed_public = λ pem. true;
  base64_encode = λ bytes. bytes;
}

abbrev parse_uuid : Text → Option Uuid
parse_uuid s = some (length s)

abbrev generated : KeyPair
generated = record { to_pkcs8v1 = some (65 ∷ 66 ∷ []); public_key = 67 ∷ [] }

abbrev password : Text
password = codes "correct horse battery"

abbrev dev : Settings
dev = record {
  jwt_private_key_pem = private_pem keys parse_uuid (65 ∷ 66 ∷ []);
  jwt_public_key_pem = public_pem keys parse_uuid (67 ∷ []);
  access_token_ttl_secs = pos 900;
  admin_user_id = record { uuid = 36 };
  default_admin_password = password;
  allowed_origins = codes default_origins;
  sse_broadcast_buffer = 256;
  session = record default_session_settings { cookie_secure = false };
}

abbrev var : Vars
var name =
    if text_eq (codes name) (codes "JWT_PRIVATE_KEY_PEM")
    then some dev.jwt_private_key_pem
    else if text_eq (codes name) (codes "JWT_PUBLIC_KEY_PEM")
    then some dev.jwt_public_key_pem
    else if text_eq (codes name) (codes "ADMIN_PASSWORD")
    then some password
    else none

load_iff_example :
    (load keys parse_uuid var ≡ ok (record dev { session = default_session_settings }))
    ↔ IsLoaded keys parse_uuid var (record dev { session = default_session_settings })
load_iff_example = load_iff keys parse_uuid var (record dev { session = default_session_settings })

starts_for_development : load_dev_keys keys parse_uuid (some generated) password ≡ ok dev
unfolding load_dev_keys with_dev_keys from_str try_from
starts_for_development = refl

load-load_dev_keys_example :
    load keys parse_uuid var ≡ ok (record dev { session = default_session_settings })
load-load_dev_keys_example =
    load-load_dev_keys keys parse_uuid (some generated) password dev var starts_for_development
      (record {
        private = refl;
        public = refl;
        password = refl;
        admin = refl;
        cookie = refl;
        csrf = refl;
      })

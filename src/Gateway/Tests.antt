-- ===== src/Gateway/Tests.antt =====
-- A gateway with one module and the default configuration, its health, and a key.
use rust_web_fullstack.Prelude.{
  ℕ, true, false, Text, codes, Option, none, some, List, [], ◌∷◌, ◌≡◌, refl, All, any, arith, ◌==◌,
  ◌||◌,
}
use rust_web_fullstack.Prelude.Int.{pos}
use rust_web_fullstack.Config.{Config, default_gateway, default_live_search, validate}
use rust_web_fullstack.Config.Validity.{IsValid, validate_iff}
use rust_web_fullstack.Settings.{Settings, default_session_settings}
use rust_web_fullstack.Gateway.State.{GatewayState, ServiceModule, passed}
use rust_web_fullstack.Gateway.Pem.{newline, pem_encode}
use rust_web_fullstack.Gateway.Pem.RoundTrip.{dash, IsPlain, pem_decode, pem_decode-pem_encode}

abbrev config : Config
config = record { gateway = default_gateway; live_search = default_live_search }

config-IsValid : IsValid config
unfolding validate
config-IsValid = (validate_iff config).0 refl

abbrev pub proxy : ServiceModule
proxy = record {
  name = "proxy";
  path = "proxy";
  description = "IP proxy / VPN check via upstream API";
  enabled = true;
  health_check = passed;
}

abbrev pub settings : Settings
settings = record {
  jwt_private_key_pem = [];
  jwt_public_key_pem = [];
  access_token_ttl_secs = pos 60;
  admin_user_id = record { uuid = 5 };
  default_admin_password = codes "correct horse battery";
  allowed_origins = [];
  sse_broadcast_buffer = 256;
  session = default_session_settings;
}

abbrev state : GatewayState
state = record {
  services = [];
  modules = proxy ∷ [];
  settings = settings;
  proxy_upstream_url = codes "https://ipapi.co";
  db_pool = true;
  refresh_token_ttl_secs = pos 3_600;
  access_token_ttl_secs = pos 60;
}

-- A base64 that writes each byte as itself with a letter before it, for the bytes of this key.
abbrev encode : List ℕ → Text
encode [] = []
encode (b ∷ bs) = 0x41 ∷ b ∷ encode bs

abbrev decode : Text → Option (List ℕ)
decode [] = some []
decode (c ∷ []) = none
decode (c ∷ b ∷ s) = elim (decode s) [ none ↦ none | some bs ↦ some (b ∷ bs) ]

All-IsPlain : (s : Text) → any (λ c. c == dash || c == newline) s ≡ false → All IsPlain s
All-IsPlain [] e = tt
All-IsPlain (c ∷ s) e = ground (arith, e, All-IsPlain s)

abbrev seed : List ℕ
seed =
    1 ∷ 2 ∷ 3 ∷ 4 ∷ 5 ∷ 6 ∷ 7 ∷ 8 ∷ 1 ∷ 2 ∷ 3 ∷ 4 ∷ 5 ∷ 6 ∷ 7 ∷ 8 ∷ 1 ∷ 2 ∷ 3 ∷ 4 ∷ 5 ∷ 6 ∷ 7 ∷ 8
    ∷ 1 ∷ 2 ∷ 3 ∷ 4 ∷ 5 ∷ 6 ∷ 7 ∷ 8 ∷ []

pem_decode-pem_encode_example :
    pem_decode decode (codes "PRIVATE KEY") (pem_encode encode (codes "PRIVATE KEY") seed)
    ≡ some seed
pem_decode-pem_encode_example =
    pem_decode-pem_encode encode decode (codes "PRIVATE KEY") seed (All-IsPlain (encode seed) refl)
      refl

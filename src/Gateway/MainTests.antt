-- ===== src/Gateway/MainTests.antt =====
-- A run of the gateway with development keys, whose handler of SIGTERM cannot be installed:
-- gateway/src/main.rs.
use rust_web_fullstack.Prelude.{true, false, codes, length, none, some, [], ◌∷◌, ok, err, ◌≡◌, refl}
use rust_web_fullstack.Config.{default_gateway, default_live_search}
use rust_web_fullstack.Settings.Load.{Vars}
use rust_web_fullstack.Gateway.Main.{Setup, shutdown_signal, main}
use rust_web_fullstack.Gateway.Main.Serving.{Ran, main-Ran}

abbrev vars : Vars
vars name = some (codes "1")

abbrev setup : Setup
setup = record {
  args = codes "--dev-keys" ∷ [];
  vars = vars;
  sources = record {
    path_exists = λ path. true;
    build = λ values path environment.
        ok (record { gateway = default_gateway; live_search = default_live_search });
  };
  keys = record {
    from_ed_private = λ pem. true;
    from_ed_public = λ pem. true;
    base64_encode = λ bytes. bytes;
  };
  generated = some (record { to_pkcs8v1 = some (65 ∷ []); public_key = 67 ∷ [] });
  parse_uuid = λ s. some (length s);
  cors = record { parse = λ s. some s; list_panics = λ l. false };
  connects = true;
  migrates = true;
  client_builds = true;
  binds = true;
  serves = true;
  signals = record { ctrl_c = none; terminate = err tt };
}

stops_at_once : shutdown_signal setup.signals ≡ true
unfolding shutdown_signal
stops_at_once = refl

main-Ran_example : Ran setup (main setup)
main-Ran_example = main-Ran setup

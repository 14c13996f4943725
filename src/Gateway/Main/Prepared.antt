-- ===== src/Gateway/Main/Prepared.antt =====
-- What the gateway has met when it comes to serve, and its state: gateway/src/main.rs.
use rust_web_fullstack.Prelude.{
  ℕ, Bool, true, not, Text, none, some, Result, ok, Stop, failed, ◌≡◌, inl, inr, refl, arith,
  Result-cases, Bool-cases, Option-cases, sym, ◌∙◌, ◌>>=◌, ◌>>◌, refuse_if,
}
use rust_web_fullstack.Prelude.Int.{pos}
use rust_web_fullstack.Config.{Config}
use rust_web_fullstack.Config.Load.{load_from}
use rust_web_fullstack.Config.Validity.{IsValid, load_from_iff}
use rust_web_fullstack.Settings.{Settings, try_i64, apply_runtime_config}
use rust_web_fullstack.Gateway.State.{GatewayState}
use rust_web_fullstack.Gateway.Build.{dev_keys, gateway_state}
use rust_web_fullstack.Gateway.Build.Accepts.{started, configured}
use rust_web_fullstack.Gateway.Cors.{CorsLayer, cors_layer}
use rust_web_fullstack.Gateway.Main.Loaded.{
  IsGuarded, Loads, load_settings_iff, dev_keys-IsGuarded, IsGuarded-dev_keys,
}
use rust_web_fullstack.Gateway.Main.{
  MainError, migrations, bind, service_modules, Setup, load_settings, fail_as, create_db_pool,
  build, prepare,
}

-- What a start has met, for the state and the port that it serves with.
pub record IsPrepared (s : Setup) (state : GatewayState) (port : ℕ) : Type 0 where
  pub asked : Bool
  pub guarded : IsGuarded s asked
  pub cfg : Config
  pub configured_by : load_from s.sources (s.vars "RWF_CONFIG") none ≡ ok cfg
  pub loaded : Settings
  pub settings : Loads s asked loaded
  pub database : (url : Text) × (s.vars "DATABASE_URL" ≡ some url)
  pub connected : s.connects ≡ true
  pub migrated : s.migrates ≡ true
  pub has_client : s.client_builds ≡ true
  pub layer : (l : CorsLayer) × (cors_layer s.cors cfg.gateway.cors.allowed_origins ≡ some l)
  pub bound : s.binds ≡ true
  pub built : state ≡ started true service_modules cfg loaded
  pub listens : port ≡ cfg.gateway.port

try_i64_fits :
    (cfg : Config)
    → IsValid cfg
    → try_i64 cfg.gateway.refresh_token_ttl_secs ≡ some (pos cfg.gateway.refresh_token_ttl_secs)
unfolding try_i64
try_i64_fits cfg v = ground arith

apply_runtime_config_ok :
    (cfg : Config) (loaded : Settings)
    → IsValid cfg
    → apply_runtime_config loaded cfg.gateway ≡ ok (configured cfg loaded)
unfolding try_i64 apply_runtime_config
apply_runtime_config_ok cfg loaded v = ground arith

module _ (s : Setup) where
  build_ok :
      (cfg : Config) (loaded : Settings) (l : CorsLayer)
      → IsValid cfg
      → s.client_builds ≡ true
      → cors_layer s.cors cfg.gateway.cors.allowed_origins ≡ some l
      → build s cfg (configured cfg loaded) (pos cfg.gateway.refresh_token_ttl_secs)
        ≡ ok (started true service_modules cfg loaded)
  unfolding build gateway_state
  build_ok cfg loaded l v client layer = ground (arith, layer)

  build-eq-ok :
      (cfg : Config) (loaded : Settings) (state : GatewayState)
      → IsValid cfg
      → build s cfg (configured cfg loaded) (pos cfg.gateway.refresh_token_ttl_secs) ≡ ok state
      → (s.client_builds ≡ true)
        × ((l : CorsLayer) × (cors_layer s.cors cfg.gateway.cors.allowed_origins ≡ some l))
        × (state ≡ started true service_modules cfg loaded)
  unfolding build gateway_state
  build-eq-ok cfg loaded state v h = elim (Bool-cases s.client_builds) [
    | inr down ↦ absurd (ground arith)
    | inl up ↦ elim (Option-cases (cors_layer s.cors cfg.gateway.cors.allowed_origins)) [
      | inl panics ↦ absurd (ground arith)
      | inr (l, layer) ↦ (up, (l, layer), (cc (sym h ∙ build_ok cfg loaded l v up layer)))
    ]
  ]

  -- What follows the configuration and the settings.
  abbrev Rest : Config → Settings → Result (GatewayState × ℕ) (Stop MainError)
  Rest cfg loaded = do
    create_db_pool s
    refuse_if (not s.migrates) (failed migrations)
    state ← build s cfg (configured cfg loaded) (pos cfg.gateway.refresh_token_ttl_secs)
    refuse_if (not s.binds) (failed bind)
    ok (state, cfg.gateway.port)

  -- With a valid configuration no lifetime is refused.
  prepare_lem :
      (asked : Bool) (cfg : Config) (loaded : Settings)
      → dev_keys s.args (s.vars "ALLOW_DEV_KEYS") ≡ ok asked
      → load_from s.sources (s.vars "RWF_CONFIG") none ≡ ok cfg
      → load_settings s asked ≡ ok loaded
      → IsValid cfg
      → prepare s ≡ Rest cfg loaded
  unfolding prepare fail_as
  prepare_lem asked cfg loaded guarded configured_by settings v =
      rw
        (guarded, configured_by, try_i64_fits cfg v, settings, apply_runtime_config_ok cfg loaded v)
        refl

  -- What the end of a start has met.
  Rest-eq-ok :
      (cfg : Config) (loaded : Settings) (state : GatewayState) (port : ℕ)
      → Rest cfg loaded ≡ ok (state, port)
      → ((url : Text) × (s.vars "DATABASE_URL" ≡ some url))
        × (s.connects ≡ true)
        × (s.migrates ≡ true)
        × (build s cfg (configured cfg loaded) (pos cfg.gateway.refresh_token_ttl_secs) ≡ ok state)
        × (s.binds ≡ true)
        × (port ≡ cfg.gateway.port)
  unfolding create_db_pool
  Rest-eq-ok cfg loaded state port h = elim (Option-cases (s.vars "DATABASE_URL")) [
    | inl unset ↦ absurd (ground arith)
    | inr (url, set) ↦
        elim (Result-cases
          (build s cfg (configured cfg loaded) (pos cfg.gateway.refresh_token_ttl_secs))) [
            | inr (e, bad) ↦ absurd (ground arith)
            | inl (built, b) ↦
                ((url, set), ground arith, ground arith, ground arith, ground arith, ground arith)
          ]
  ]

  pub prepare-IsPrepared :
      (state : GatewayState) (port : ℕ) → prepare s ≡ ok (state, port) → IsPrepared s state port
  unfolding prepare fail_as
  prepare-IsPrepared state port h =
      elim (Result-cases (dev_keys s.args (s.vars "ALLOW_DEV_KEYS"))) [
        | inr (e, bad) ↦ absurd (ground arith)
        | inl (asked, guarded) ↦
            elim (Result-cases (load_from s.sources (s.vars "RWF_CONFIG") none)) [
              | inr (e, bad) ↦ absurd (ground arith)
              | inl (cfg, configured_by) ↦
                  let v =
                    ((load_from_iff s.sources (s.vars "RWF_CONFIG") none cfg).0 configured_by).2 in
                  elim (Result-cases (load_settings s asked)) [
                    | inr (e, bad) ↦ absurd (ground (arith, try_i64_fits cfg v))
                    | inl (loaded, settings) ↦
                        prepared asked cfg loaded guarded configured_by settings v (
                          Rest-eq-ok cfg loaded state port (
                            sym (prepare_lem asked cfg loaded guarded configured_by settings v)
                            ∙ h))
                  ]
            ]
      ]
    where
      prepared :
          (asked : Bool) (cfg : Config) (loaded : Settings)
          → dev_keys s.args (s.vars "ALLOW_DEV_KEYS") ≡ ok asked
          → load_from s.sources (s.vars "RWF_CONFIG") none ≡ ok cfg
          → load_settings s asked ≡ ok loaded
          → IsValid cfg
          → ((url : Text) × (s.vars "DATABASE_URL" ≡ some url))
            × (s.connects ≡ true)
            × (s.migrates ≡ true)
            × (build s cfg (configured cfg loaded) (pos cfg.gateway.refresh_token_ttl_secs)
                ≡ ok state)
            × (s.binds ≡ true)
            × (port ≡ cfg.gateway.port)
          → IsPrepared s state port
      prepared asked cfg loaded g c l v (url, connected, migrated, built, bound, listens) =
          let (client, layer, same) = build-eq-ok cfg loaded state v built in
          record {
            asked = asked;
            guarded = dev_keys-IsGuarded s asked g;
            cfg = cfg;
            configured_by = c;
            loaded = loaded;
            settings = (load_settings_iff s asked loaded).0 l;
            database = url;
            connected = connected;
            migrated = migrated;
            has_client = client;
            layer = layer;
            bound = bound;
            built = same;
            listens = listens;
          }

  pub IsPrepared-prepare :
      (state : GatewayState) (port : ℕ) → IsPrepared s state port → prepare s ≡ ok (state, port)
  unfolding create_db_pool
  IsPrepared-prepare state port p =
      let v = ((load_from_iff s.sources (s.vars "RWF_CONFIG") none p.cfg).0 p.configured_by).2 in
      prepare_lem p.asked p.cfg p.loaded (IsGuarded-dev_keys s p.asked p.guarded) p.configured_by
        ((load_settings_iff s p.asked p.loaded).1 p.settings) v
      ∙ rw
          (
            build_ok p.cfg p.loaded p.layer.0 v p.has_client p.layer.1,
            p.database.1,
            p.connected,
            p.migrated,
            p.bound,
            p.built,
            p.listens,
          )
          refl

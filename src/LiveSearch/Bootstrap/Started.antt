-- ===== src/LiveSearch/Bootstrap/Started.antt =====
-- What a startup leaves: live-search/src/bootstrap.rs.
use rust_web_fullstack.Prelude.{
  leb→gt, ◌<◌, ◌&&◌, panicked, ℕ, false, leb, Text, Option, none, some, ◌∷◌, Result, ok, err, Stop,
  ◌≡◌, ◌≢◌, refl, inl, inr, arith, Result-cases, Option-cases, Bool-cases,
}
use rust_web_fullstack.Config.{Config}
use rust_web_fullstack.Config.Load.{Sources, load_from}
use rust_web_fullstack.Config.Validity.{load_from_iff}
use rust_web_fullstack.Settings.Load.{Vars}
use rust_web_fullstack.LiveSearch.Bootstrap.{
  PoolTunables, BootError, AppContext, connected, migrated, context_stored, listener_spawned,
  options_read, bound, server_spawned, pg_listener, server, World, BootOutcomes, database_settings,
  listener_addr, load_config, channel, set, startup, settle, run,
}

module _ (parse_u16 : Text → Option ℕ) (io : BootOutcomes) (var : Vars) (sources : Sources)
    (w : World) where
  pub record IsStarted (w' : World) (handle : Text × PoolTunables) : Type 0 where
    pub cfg : Config
    pub loaded : load_from sources (var "RWF_CONFIG") none ≡ ok cfg
    pub first : w.context ≡ none
    pub settings : handle ≡ database_settings var cfg
    pub context :
        w'.context
        ≡ some (record { database_url = handle.0; capacity = cfg.live_search.sse_broadcast_buffer })
    pub running : w'.running ≡ server ∷ pg_listener ∷ w.running
    pub actions :
        w'.actions
        ≡ server_spawned
          ∷ bound (listener_addr parse_u16 var cfg.live_search.port)
          ∷ options_read
          ∷ listener_spawned
          ∷ context_stored
          ∷ migrated
          ∷ connected handle.0 handle.1
          ∷ w.actions

  run_ok :
      (w' : World) (handle : Text × PoolTunables)
      → run parse_u16 io var sources w ≡ (w', ok handle)
      → IsStarted w' handle
  unfolding run startup settle set load_config channel
  run_ok w' handle e = elim (Result-cases (load_from sources (var "RWF_CONFIG") none)) [
    | inr (x, refused) ↦ ground arith
    | inl (cfg, loaded) ↦ record {
      cfg = cfg;
      loaded = loaded;
      first = ground arith;
      settings = ground arith;
      context = ground arith;
      running = ground arith;
      actions = ground arith;
    }
  ]

  -- The channel's capacity is more than `usize::MAX / 2`.
  abbrev Overflows : Type 0
  Overflows =
      (cfg : Config) × (load_from sources (var "RWF_CONFIG") none ≡ ok cfg)
      × (9_223_372_036_854_775_807 < cfg.live_search.sse_broadcast_buffer)

  -- Why a startup is refused.
  pub data Cause (e : Stop BootError) : Type 0 where
    unconfigured : ((cfg : Config) → load_from sources (var "RWF_CONFIG") none ≢ ok cfg) → Cause e
    unavailable : (io.connects && io.migrates && io.reads_options && io.binds) ≡ false → Cause e
    repeated : (c : AppContext) → w.context ≡ some c → Cause e
    too_large : e ≡ panicked → Overflows → Cause e

  pub data Ended (w' : World) (result : Result (Text × PoolTunables) (Stop BootError))
      : Type 0 where
    started :
        (handle : Text × PoolTunables) → result ≡ ok handle → IsStarted w' handle → Ended w' result
    refused :
        (e : Stop BootError) → result ≡ err e → Cause e → w'.running ≡ w.running → Ended w' result

  run_err-running :
      (w' : World) (e : Stop BootError)
      → run parse_u16 io var sources w ≡ (w', err e)
      → w'.running ≡ w.running
  unfolding run settle
  run_err-running w' e h = settled (startup parse_u16 io var sources w) h
    where
      settled :
          (r : World × Result (Text × PoolTunables) (Stop BootError))
          → settle parse_u16 w r ≡ (w', err e)
          → w'.running ≡ w.running
      settled (v, ok x) q = ground arith
      settled (v, err x) q = ground arith

  run_err-Cause :
      (w' : World) (e : Stop BootError) → run parse_u16 io var sources w ≡ (w', err e) → Cause e
  unfolding run startup settle set load_config channel
  run_err-Cause w' e h = elim (Result-cases (load_from sources (var "RWF_CONFIG") none)) [
    | inr (x, bad) ↦ unconfigured (λ cfg good. ground arith)
    | inl (cfg, loaded) ↦ elim (Option-cases w.context) [
      | inr (c, set_before) ↦ repeated c set_before
      | inl fresh ↦
          let valid = ((load_from_iff sources (var "RWF_CONFIG") none cfg).0 loaded).2 in
          elim (Bool-cases (io.connects && io.migrates && io.reads_options && io.binds)) [
            | inr down ↦ unavailable down
            | inl up ↦
                let buffer = cfg.live_search.sse_broadcast_buffer in
                elim (Bool-cases (leb buffer 9_223_372_036_854_775_807)) [
                  | inr large ↦ too_large (ground arith) (cfg, loaded, leb→gt _ _ large)
                  | inl fits ↦ ground (arith, valid.search_buffer)
                ]
          ]
    ]
  ]

-- A startup ends in one of two ways. Either it gives the pool's settings, the configuration was
-- accepted, no context was set before, and then these were done once each and in this order: the
-- pool connected, the migrations run, the context set, the listener spawned, the options read, the
-- port of the environment or the configuration bound, the server spawned. Or it is refused, none of
-- its tasks goes on running, and there was a cause: the configuration, one of the four awaits, a
-- context that was set before, or, for a panic, a channel capacity above `usize::MAX / 2`.
pub run-Ended :
    (parse_u16 : Text → Option ℕ) (io : BootOutcomes) (var : Vars) (sources : Sources) (w : World)
    → Ended parse_u16 io var sources w
        (run parse_u16 io var sources w).0
        (run parse_u16 io var sources w).1
run-Ended parse_u16 io var sources w = ended (run parse_u16 io var sources w) refl
  where
    ended :
        (r : World × Result (Text × PoolTunables) (Stop BootError))
        → run parse_u16 io var sources w ≡ r
        → Ended parse_u16 io var sources w r.0 r.1
    ended (w', ok handle) e = started handle refl (run_ok parse_u16 io var sources w w' handle e)
    ended (w', err x) e =
        refused x refl (run_err-Cause parse_u16 io var sources w w' x e)
          (run_err-running parse_u16 io var sources w w' x e)

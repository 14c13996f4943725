-- ===== src/Gateway/Main/Serving.antt =====
-- When the gateway serves, with what state, and when it stops: gateway/src/main.rs.
use rust_web_fullstack.Prelude.{
  ℕ, true, false, none, some, Result, ok, err, Stop, failed, ◌≡◌, ◌⊎◌, inl, inr, refl, arith,
  Result-cases, Bool-cases, Option-cases,
}
use rust_web_fullstack.Gateway.State.{GatewayState}
use rust_web_fullstack.Gateway.Main.{
  MainError, serve, Signals, Setup, prepare, Run, refused, serving, stopped, main, shutdown_signal,
  serve_until,
}
use rust_web_fullstack.Gateway.Main.Prepared.{IsPrepared, prepare-IsPrepared, IsPrepared-prepare}

-- A signal came, or its handler could not be installed.
abbrev pub IsWoken : Signals → Type 0
IsWoken s =
    ((r : Result (Unit {0}) (Unit {0})) × (s.ctrl_c ≡ some r))
    ⊎ (s.terminate ≡ ok true)
    ⊎ ((e : Unit {0}) × (s.terminate ≡ err e))

abbrev pub IsCalm : Signals → Type 0
IsCalm s = (s.ctrl_c ≡ none) × (s.terminate ≡ ok false)

shutdown_signal-true : (s : Signals) → shutdown_signal s ≡ true → IsWoken s
unfolding shutdown_signal
shutdown_signal-true s h = elim (Option-cases s.ctrl_c) [
  | inr came ↦ inl came
  | inl calm ↦ elim (Result-cases s.terminate) [
    | inr uninstalled ↦ inr (inr uninstalled)
    | inl (came, e) ↦ inr (inl (ground arith))
  ]
]

shutdown_signal-false : (s : Signals) → shutdown_signal s ≡ false → IsCalm s
unfolding shutdown_signal
shutdown_signal-false s h = elim (Option-cases s.ctrl_c) [
  | inr (r, came) ↦ absurd (ground arith)
  | inl calm ↦ (calm, ground arith)
]

pub data Ran (s : Setup) (r : Run) : Type 0 where
  not_run :
      (e : Stop MainError)
      → r ≡ refused e
      → ((state : GatewayState) (port : ℕ) → ¬ IsPrepared s state port) ⊎ (s.serves ≡ false)
      → Ran s r
  runs_on :
      (state : GatewayState) (port : ℕ)
      → r ≡ serving state port
      → IsPrepared s state port
      → IsCalm s.signals
      → Ran s r
  run_out :
      (state : GatewayState) (port : ℕ)
      → r ≡ stopped state port
      → IsPrepared s state port
      → IsWoken s.signals
      → Ran s r

serve_until-Ran :
    (s : Setup) (r : Result (GatewayState × ℕ) (Stop MainError))
    → prepare s ≡ r
    → Ran s (serve_until s r)
unfolding serve_until
serve_until-Ran s (err e) p =
    not_run e refl (inl (λ state port ready. cc (IsPrepared-prepare s state port ready)))
serve_until-Ran s (ok (state, port)) p = elim (Bool-cases s.serves) [
  | inr breaks ↦ not_run (failed serve) (ground arith) (inr breaks)
  | inl runs ↦ elim (Bool-cases (shutdown_signal s.signals)) [
    | inl woken ↦
        run_out state port (ground arith) (prepare-IsPrepared s state port p)
          (shutdown_signal-true s.signals woken)
    | inr calm ↦
        runs_on state port (ground arith) (prepare-IsPrepared s state port p)
          (shutdown_signal-false s.signals calm)
  ]
]

-- A run of the gateway's `main` comes to one of three things. It is refused: then the server broke
-- off, or there is no state that it could have served with. It serves, or it has served and
-- stopped: then the flag for development keys was allowed if it was given, the configuration is
-- what the sources give, with the file that RWF_CONFIG names if it is set, the settings are the
-- environment's, or with the flag those for development, a database is named and answered, its
-- migrations ran, the HTTP client and the CORS layer could be built, the port is the
-- configuration's, and the state has these settings, these lifetimes and a pool. It has stopped
-- exactly when Ctrl+C or SIGTERM came, or when the handler of one of them could not be installed.
pub main-Ran : (s : Setup) → Ran s (main s)
unfolding main
main-Ran s = serve_until-Ran s (prepare s) refl

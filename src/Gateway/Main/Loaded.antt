-- ===== src/Gateway/Main/Loaded.antt =====
-- When development keys are asked for, and the settings a start loads: gateway/src/main.rs.
use rust_web_fullstack.Prelude.{
  any, text_eq, text_eq_iff, codes, Bool, true, false, ◌↔◌, some, ok, ◌≡◌, inl, inr, refl, arith,
  Bool-cases, Option-cases, ap, ◌∙◌,
}
use rust_web_fullstack.Settings.{Settings}
use rust_web_fullstack.Settings.Load.{load, load_dev_keys_from_env}
use rust_web_fullstack.Gateway.Build.{dev_keys}
use rust_web_fullstack.Gateway.Main.{Setup, load_settings}

-- Development keys are asked for by the flag, and only where the environment allows them.
abbrev pub IsGuarded : Setup → Bool → Type 0
IsGuarded s true =
    (any (text_eq (codes "--dev-keys")) s.args ≡ true)
    × (s.vars "ALLOW_DEV_KEYS" ≡ some (codes "1"))
IsGuarded s false = any (text_eq (codes "--dev-keys")) s.args ≡ false

abbrev pub Loads : Setup → Bool → Settings → Type 0
Loads s true loaded = load_dev_keys_from_env s.keys s.parse_uuid s.vars s.generated ≡ ok loaded
Loads s false loaded = load s.keys s.parse_uuid s.vars ≡ ok loaded

pub load_settings_iff :
    (s : Setup) (asked : Bool) (loaded : Settings)
    → (load_settings s asked ≡ ok loaded) ↔ Loads s asked loaded
unfolding load_settings
load_settings_iff s true loaded = (λ h. h, λ h. h)
load_settings_iff s false loaded = (λ h. h, λ h. h)

pub dev_keys-IsGuarded :
    (s : Setup) (asked : Bool)
    → dev_keys s.args (s.vars "ALLOW_DEV_KEYS") ≡ ok asked
    → IsGuarded s asked
unfolding dev_keys
dev_keys-IsGuarded s asked h = elim (Bool-cases (any (text_eq (codes "--dev-keys")) s.args)) [
  | inr plain ↦ let same : asked ≡ false = ground arith in rw same plain
  | inl flag ↦ elim (Option-cases (s.vars "ALLOW_DEV_KEYS")) [
    | inl unset ↦ absurd (ground arith)
    | inr (v, set) ↦ elim (Bool-cases (text_eq v (codes "1"))) [
      | inr other ↦ absurd (ground arith)
      | inl one ↦
          let same : asked ≡ true = ground arith in
          rw same (flag, set ∙ ap some ((text_eq_iff v (codes "1")).0 one))
    ]
  ]
]

pub IsGuarded-dev_keys :
    (s : Setup) (asked : Bool)
    → IsGuarded s asked
    → dev_keys s.args (s.vars "ALLOW_DEV_KEYS") ≡ ok asked
unfolding dev_keys
IsGuarded-dev_keys s true (flag, allowed) =
    rw (flag, allowed, (text_eq_iff (codes "1") (codes "1")).1 refl) refl
IsGuarded-dev_keys s false flag = rw flag refl

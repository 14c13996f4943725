-- ===== src/Config/Tests.antt =====
-- The default configuration of crates/config/src/lib.rs, loaded from the defaults alone.
use rust_web_fullstack.Prelude.{true, none, some, codes, text_eq, ok, ◌≡◌, ◌↔◌, refl}
use rust_web_fullstack.Config.{Config, default_gateway, default_live_search, validate}
use rust_web_fullstack.Config.Load.{defaults, Sources, load_from}
use rust_web_fullstack.Config.Validity.{IsValid, IsBuilt, load_from_iff}

abbrev config : Config
config = record { gateway = default_gateway; live_search = default_live_search }

abbrev sources : Sources
sources = record {
  path_exists = λ path. text_eq path (codes "config.toml");
  build = λ values path environment. ok config;
}

loads : load_from sources (some (codes "config.toml")) none ≡ ok config
unfolding load_from defaults validate
loads = refl

load_from_iff_example : (load_from sources (some (codes "config.toml")) none ≡ ok config) ↔ (
    (sources.path_exists (codes "config.toml") ≡ true)
    × IsBuilt sources (some (codes "config.toml")) none config
    × IsValid config)
load_from_iff_example = load_from_iff sources (some (codes "config.toml")) none config

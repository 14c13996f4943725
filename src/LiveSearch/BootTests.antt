-- ===== src/LiveSearch/BootTests.antt =====
-- A run of `main` with the default configuration, of live-search/src/main.rs.
use rust_web_fullstack.Prelude.{true, Text, Option, none, [], ◌∷◌, ok, ℕ, false}
use rust_web_fullstack.Config.{default_gateway, default_live_search}
use rust_web_fullstack.Config.Load.{Sources}
use rust_web_fullstack.Settings.Load.{Vars}
use rust_web_fullstack.LiveSearch.Bootstrap.{World, BootOutcomes}
use rust_web_fullstack.LiveSearch.Shutdown.{terminated}
use rust_web_fullstack.LiveSearch.Main.{ShutdownOutcomes, main}
use rust_web_fullstack.LiveSearch.Main.Ends.{Ends, main-Ends}

abbrev sources : Sources
sources = record {
  path_exists = λ path. true;
  build = λ values path environment.
      ok (record { gateway = default_gateway; live_search = default_live_search });
}

abbrev io : BootOutcomes
io = record { connects = true; migrates = true; reads_options = true; binds = true }

abbrev world : World
world = record { context = none; actions = []; running = [] }

abbrev parse_u16 : Text → Option ℕ
parse_u16 s = none

abbrev var : Vars
var name = none

abbrev out : ShutdownOutcomes ℕ
out = record {
  grace = 1;
  has_provider = false;
  woken = ok terminated;
  drained = ok (ok (ok tt) ∷ ok (ok tt) ∷ []);
}

main-Ends_example :
    Ends parse_u16 io out var sources world
      (main parse_u16 io out var sources world).0
      (main parse_u16 io out var sources world).1
main-Ends_example = main-Ends parse_u16 io out var sources world

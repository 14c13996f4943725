-- ===== src/TestServers/Browser.antt =====
-- `locate_chrome`, `setup` and `teardown` of e2e-tests/src/common/chromium.rs, with
-- `unique_profile_dir`, `base_url` and `join_url`. The file system, the variables and the browser
-- are arguments; a profile directory is the number in its name.
pub mod Located
pub mod Profiles
use rust_web_fullstack.Prelude.{
  ℕ, ◌+◌, ◌%◌, ◌^◌, ◌==◌, Bool, true, false, not, Text, codes, Option, none, some, List, [], ◌∷◌,
  ◌++◌, keep, Result, ok, err, trim_start, trim_end, if◌then◌else◌,
}
use rust_web_fullstack.Settings.Load.{Vars, starts_with}

pub record Files : Type 0 where
  -- `Path::exists`.
  pub exists : Text → Bool
  -- The names in a directory, in the order of `read_dir`, less those that cannot be read.
  pub read_dir : Text → Option (List Text)
  -- `Path::join`.
  pub join : Text → Text → Text

abbrev pub system_defaults : List Text
system_defaults =
    codes "/usr/bin/chromium"
    ∷ codes "/usr/bin/chromium-browser"
    ∷ codes "/usr/bin/google-chrome"
    ∷ codes "/usr/bin/google-chrome-stable"
    ∷ []

unfoldable pub browsers_path : Vars → Text
browsers_path var = elim (var "PLAYWRIGHT_BROWSERS_PATH") [
  | some base ↦ base
  | none ↦ elim (var "HOME") [
    | some home ↦ home ++ codes "/.cache/ms-playwright"
    | none ↦ codes "/usr/share/ms-playwright"
  ]
]

module _ (files : Files) where
  -- A path, if it exists, or what is found later.
  or_later : Text → Option Text → Option Text
  or_later p later = if files.exists p then some p else later

  from_defaults : List Text → Option Text
  unfolding or_later
  from_defaults [] = none
  from_defaults (p ∷ ps) = or_later p (from_defaults ps)

  abbrev pub candidate : Text → Text → Text
  candidate base name =
      files.join (files.join (files.join base name) (codes "chrome-linux64")) (codes "chrome")

  -- The loop over the entries of the cache.
  from_entries : Text → List Text → Option Text → Option Text
  unfolding or_later
  from_entries base [] later = later
  from_entries base (name ∷ names) later =
      let rest = from_entries base names later in
      if starts_with (codes "chromium-") name then or_later (candidate base name) rest else rest

  from_cache : Text → Option (List Text) → Option Text → Option Text
  unfolding from_entries
  from_cache base none later = later
  from_cache base (some names) later = from_entries base names later

  from_variable : Option Text → Option Text → Option Text
  unfolding or_later
  from_variable none later = later
  from_variable (some p) later = or_later p later

  unfoldable pub locate_chrome : Vars → Option Text
  unfolding from_variable from_cache from_defaults
  locate_chrome var =
      let base = browsers_path var in
      from_variable (var "CHROME_PATH")
        (from_cache base (files.read_dir base) (from_defaults system_defaults))

-- The process's counter, the profile directories that exist and the handler tasks that run.
pub record Browsers : Type 0 where
  pub counter : ℕ
  pub dirs : List ℕ
  pub handlers : List ℕ

pub data SetupError : Type 0 where
  profile_dir browser_config launch page : SetupError

pub record SetupOutcomes : Type 0 where
  pub creates_dir : Bool
  pub builds_config : Bool
  pub launches : Bool
  pub opens_page : Bool

abbrev pub without : ℕ → List ℕ → List ℕ
without n = keep (λ m. not (m == n))

-- `fetch_add` on an `AtomicU64` wraps.
unfoldable pub unique_profile_dir : Browsers → Browsers × ℕ
unique_profile_dir w = (record w { counter = (w.counter + 1) % 2 ^ 64 }, w.counter)

-- From the directory on; an error leaves what was made before it, and the handler task too: its
-- token is dropped without being cancelled.
launch_browser : SetupOutcomes → ℕ → Browsers → Browsers × Result ℕ SetupError
launch_browser o n w =
    if not o.creates_dir
    then (w, err profile_dir)
    else let made = record w { dirs = n ∷ w.dirs } in
      if not o.builds_config
      then (made, err browser_config)
      else if not o.launches
      then (made, err launch)
      else let handled = record made { handlers = n ∷ w.handlers } in
        if o.opens_page then (handled, ok n) else (handled, err page)

unfoldable pub setup : SetupOutcomes → Browsers → Browsers × Result ℕ SetupError
unfolding launch_browser unique_profile_dir
setup o w = launch_browser o (unique_profile_dir w).1 (unique_profile_dir w).0

-- However the page and the browser close, the token is cancelled; the directory is removed if it
-- can be.
unfoldable pub teardown : Bool → ℕ → Browsers → Browsers
teardown removes n w = record w {
  handlers = without n w.handlers;
  dirs = if removes then without n w.dirs else w.dirs;
}

unfoldable pub base_url : Option Text → Vars → Text
base_url (some url) var = url
base_url none var = elim (var "BASE_URL") [ some url ↦ url | none ↦ codes "http://localhost:3000" ]

abbrev pub slash : ℕ → Bool
slash c = c == 0x2f

unfoldable pub join_url : Text → Text → Text
join_url base path = trim_end slash base ++ codes "/" ++ trim_start slash path

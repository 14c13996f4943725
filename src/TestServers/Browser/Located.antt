-- ===== src/TestServers/Browser/Located.antt =====
-- Which browser the tests use: `locate_chrome` of e2e-tests/src/common/chromium.rs.
use rust_web_fullstack.Prelude.{
  Bool, Text, codes, Option, none, some, List, [], ◌∷◌, ◌++◌, map, keep, ◌≡◌, refl, arith,
  if◌then◌else◌, Bool-cases, inl, inr,
}
use rust_web_fullstack.Settings.Load.{Vars, starts_with}
use rust_web_fullstack.TestServers.Browser.{
  Files, system_defaults, browsers_path, or_later, from_defaults, candidate, from_entries,
  from_cache, from_variable, locate_chrome,
}

abbrev find : (Text → Bool) → List Text → Option Text
find p [] = none
find p (x ∷ xs) = if p x then some x else find p xs

abbrev to_list : Option Text → List Text
to_list none = []
to_list (some p) = p ∷ []

module _ (files : Files) where
  abbrev cached : Text → Option (List Text) → List Text
  cached base none = []
  cached base (some names) =
      map (candidate files base) (keep (starts_with (codes "chromium-")) names)

  -- Every path that is tried, in order.
  candidates : Vars → List Text
  candidates var =
      to_list (var "CHROME_PATH")
      ++ (cached (browsers_path var) (files.read_dir (browsers_path var)) ++ system_defaults)

  from_defaults_lem : (ps : List Text) → from_defaults files ps ≡ find files.exists ps
  unfolding from_defaults or_later
  from_defaults_lem [] = refl
  from_defaults_lem (p ∷ ps) = ground (arith, from_defaults_lem ps)

  from_entries_lem :
      (base : Text) (names ps : List Text) (later : Option Text)
      → later ≡ find files.exists ps
      → from_entries files base names later ≡ find files.exists (cached base (some names) ++ ps)
  unfolding from_entries or_later
  from_entries_lem base [] ps later e = e
  from_entries_lem base (name ∷ names) ps later e =
      elim (Bool-cases (starts_with (codes "chromium-") name)) [
        | inr other ↦ rw other (from_entries_lem base names ps later e)
        | inl named ↦ rw (named, from_entries_lem base names ps later e) refl
      ]

  from_cache_lem :
      (base : Text) (o : Option (List Text)) (ps : List Text) (later : Option Text)
      → later ≡ find files.exists ps
      → from_cache files base o later ≡ find files.exists (cached base o ++ ps)
  unfolding from_cache
  from_cache_lem base none ps later e = e
  from_cache_lem base (some names) ps later e = from_entries_lem base names ps later e

  from_variable_lem :
      (o : Option Text) (ps : List Text) (later : Option Text)
      → later ≡ find files.exists ps
      → from_variable files o later ≡ find files.exists (to_list o ++ ps)
  unfolding from_variable or_later
  from_variable_lem none ps later e = e
  from_variable_lem (some p) ps later e = rw e refl

  -- The browser is the first of the candidates that exists: that of CHROME_PATH, those that
  -- Playwright has installed, then those of the system.
  locate_chrome-eq-find :
      (var : Vars) → locate_chrome files var ≡ find files.exists (candidates var)
  unfolding locate_chrome candidates
  locate_chrome-eq-find var =
      let base = browsers_path var in
      from_variable_lem (var "CHROME_PATH") (cached base (files.read_dir base) ++ system_defaults)
        (from_cache files base (files.read_dir base) (from_defaults files system_defaults))
        (from_cache_lem base (files.read_dir base) system_defaults
          (from_defaults files system_defaults) (from_defaults_lem system_defaults))

-- ===== src/TestServers/Browser/Profiles.antt =====
-- What a browser for a test leaves: `setup` and `teardown` of e2e-tests/src/common/chromium.rs.
use rust_web_fullstack.Prelude.{
  ℕ, ◌<◌, ==_refl, ==_of_ne, true, List, [], ◌∷◌, All, ok, ◌≡◌, refl, sym, subst, ap, ◌∙◌, arith,
}
use rust_web_fullstack.TestServers.Browser.{
  Browsers, SetupOutcomes, without, unique_profile_dir, launch_browser, setup, teardown,
}

-- The names that are in use are smaller than the counter.
pub record IsNumbered (w : Browsers) : Type 0 where
  pub dirs : All (λ n. n < w.counter) w.dirs
  pub handlers : All (λ n. n < w.counter) w.handlers

without_fresh : (n : ℕ) (l : List ℕ) → All (λ m. m < n) l → without n l ≡ l
without_fresh n [] h = refl
without_fresh n (m ∷ l) (small, h) =
    rw (==_of_ne m n (λ e. absurd (omega arith))) (ap (λ r. m ∷ r) (without_fresh n l h))

without_self : (n : ℕ) (l : List ℕ) → All (λ m. m < n) l → without n (n ∷ l) ≡ l
without_self n l h = rw (==_refl n) (without_fresh n l h)

-- A browser that was set up and is torn down leaves the directories and the handler tasks as they
-- were, where its directory can be removed, however its page and its process close.
teardown-setup :
    (o : SetupOutcomes) (w w' : Browsers) (n : ℕ)
    → IsNumbered w
    → setup o w ≡ (w', ok n)
    → ((teardown true n w').dirs ≡ w.dirs) × ((teardown true n w').handlers ≡ w.handlers)
unfolding setup launch_browser unique_profile_dir teardown
teardown-setup o w w' n numbered e =
    let named : n ≡ w.counter = ground arith in
    let dirs : w'.dirs ≡ n ∷ w.dirs = ground arith in
    let handlers : w'.handlers ≡ n ∷ w.handlers = ground arith in
    (
      ap (without n) dirs
          ∙ without_self n w.dirs (subst (λ c. All (λ m. m < c) w.dirs) (sym named) numbered.dirs),
      ap (without n) handlers
          ∙ without_self n w.handlers
              (subst (λ c. All (λ m. m < c) w.handlers) (sym named) numbered.handlers),
    )

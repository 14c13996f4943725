-- ===== src/LiveSearch/SearchPage/Tests.antt =====
-- A visit to the search page: live-search/src/app.rs.
use rust_web_fullstack.Prelude.{
  ◌++◌, Text, false, is_empty, trim, codes, String, true, some, List, [], ◌∷◌, err, ◌≡◌, refl,
}
use rust_web_fullstack.LiveSearch.SearchPage.{
  Event, typed, debounced, submitted, action_changed, new, dispatch_search, step, run,
}
use rust_web_fullstack.LiveSearch.SearchPage.Requests.{texts, IsSent, run-IsSent}

-- The debounce and the button send one request; it fails, and the button sends no other.
abbrev visit : List (Event String)
visit =
    typed (codes "rust ")
    ∷ debounced (codes "rust ")
    ∷ submitted
    ∷ action_changed true (some (err "search service unavailable"))
    ∷ submitted
    ∷ []

sent_once : (run visit new).sent ≡ codes "rust" ∷ []
unfolding run new step dispatch_search
sent_once = refl

run-IsSent_example :
    IsSent (texts visit) (run visit new).last_dispatched (run visit new).sent
    × ((text : Text)
        → is_empty (trim text) ≡ false
        → (run (visit ++ typed text ∷ submitted ∷ []) new).last_dispatched ≡ trim text)
run-IsSent_example = run-IsSent visit

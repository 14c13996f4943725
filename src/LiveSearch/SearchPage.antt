-- ===== src/LiveSearch/SearchPage.antt =====
-- `SearchPage` of live-search/src/app.rs: its signals, the guard before a request is sent, and what
-- it shows. The action that sends is Leptos's: an event says what its pending flag and its value
-- have become.
pub mod Requests
mod Tests
use rust_web_fullstack.Prelude.{
  Bool, true, false, not, ◌&&◌, ◌||◌, Text, is_empty, trim, text_eq, Option, none, some, List, [],
  ◌∷◌, Result, ok, err, map, if◌then◌else◌,
}
use rust_web_fullstack.Domain.{SearchResult}

pub record SearchResultRow : Type 0 where
  pub title : Text
  pub snippet : Text
  pub url : Text

row_of : SearchResult → SearchResultRow
row_of r = record { title = r.title; snippet = r.snippet; url = r.url }

module _ (E : Type 0) where
  pub record Page : Type 0 where
    pub query : Text
    pub last_dispatched : Text
    -- What `search_action.dispatch` was called with, the last one first.
    pub sent : List Text
    pub pending : Bool
    pub value : Option (Result (List SearchResult) E)

  pub data Event : Type 0 where
    typed : Text → Event
    -- The debounced watch calls back with the query that it saw last.
    debounced : Text → Event
    submitted : Event
    action_changed : Bool → Option (Result (List SearchResult) E) → Event

  pub record View : Type 0 where
    pub prompts : Bool
    pub searching : Bool
    pub error : Option E
    -- No rows are shown as a text of their own.
    pub results : Option (List SearchResultRow)

module _ {E : Type 0} where
  unfoldable pub new : Page E
  new = record { query = []; last_dispatched = []; sent = []; pending = false; value = none }

  unfoldable pub dispatch_search : Text → Page E → Page E
  dispatch_search value p =
      let normalized = trim value in
      if is_empty normalized || text_eq normalized p.last_dispatched
      then p
      else record p { last_dispatched = normalized; sent = normalized ∷ p.sent }

  unfoldable pub step : Event E → Page E → Page E
  step (typed text) p = record p { query = text }
  step (debounced text) p = dispatch_search text p
  step submitted p = dispatch_search p.query p
  step (action_changed pending value) p = record p { pending = pending; value = value }

  unfoldable pub run : List (Event E) → Page E → Page E
  run [] p = p
  run (e ∷ es) p = run es (step e p)

  error_of : Option (Result (List SearchResult) E) → Option E
  error_of (some (err e)) = some e
  error_of (some (ok items)) = none
  error_of none = none

  results_of : Option (Result (List SearchResult) E) → Option (List SearchResultRow)
  unfolding row_of
  results_of (some (ok items)) = some (map row_of items)
  results_of (some (err e)) = none
  results_of none = none

  unfoldable pub view : Page E → View E
  unfolding error_of results_of
  view p =
      let has_query = not (is_empty (trim p.query)) in
      record {
        prompts = not has_query;
        searching = has_query && p.pending;
        error = if has_query then error_of p.value else none;
        results = if has_query then results_of p.value else none;
      }

-- ===== src/LiveSearch/Search.antt =====
-- The server function `search` of live-search/src/app.rs, in two parts: up to the cache, and from
-- the rows of its query on. The query and lower-casing are arguments.
pub mod Coherence
use rust_web_fullstack.Prelude.{
  ℕ, Bool, not, ◌&&◌, leb, length, String, Text, trim, Option, none, some, List, Result, ok, err,
  if◌then◌else◌, ◌≡◌,
}
use rust_web_fullstack.Domain.{SearchResult}
use rust_web_fullstack.LiveSearch.Cache.{Moka, CacheHandle, get, insert}

-- How `search` goes on once it has looked at its argument and the cache.
pub data Start : Type 0 where
  refused : String → Start
  hit : List SearchResult → Start
  miss : Text → Start

-- The part after the query: `rows` is what it gave.
unfoldable pub finish_search :
    {C : Type 0}
    → Moka C
    → Text
    → Result (List SearchResult) (Unit {0})
    → CacheHandle C
    → CacheHandle C × Result (List SearchResult) String
finish_search moka trimmed (err e) h = (h, err "search service unavailable")
finish_search moka trimmed (ok rows) h = (insert moka trimmed rows h, ok rows)

module _ {C : Type 0} (moka : Moka C) (to_lowercase : Text → Text) where
  unfoldable pub normalized : Text → Text
  normalized query = to_lowercase (trim query)

  from_cache : Text → Option (List SearchResult) → Start
  from_cache trimmed none = miss trimmed
  from_cache trimmed (some cached) = hit cached

  -- The refusal of a trimmed query; `ready` says whether the application context is set.
  abbrev pub refusal : Bool → Text → Option String
  refusal ready trimmed =
      if not ready
      then some "search service unavailable"
      else if not (leb 1 (length trimmed) && leb (length trimmed) 1024)
      then some "query must be 1..=1024 characters"
      else none

  unless_refused : Option String → Text → CacheHandle C → Start
  unfolding from_cache
  unless_refused (some message) trimmed h = refused message
  unless_refused none trimmed h = from_cache trimmed (get moka trimmed h)

  unfoldable pub begin_search : Bool → Text → CacheHandle C → Start
  unfolding unless_refused
  begin_search ready query h =
      let trimmed = normalized query in unless_refused (refusal ready trimmed) trimmed h

  proceed :
      (Text → Result (List SearchResult) (Unit {0}))
      → CacheHandle C
      → Start
      → CacheHandle C × Result (List SearchResult) String
  proceed database h (refused message) = (h, err message)
  proceed database h (hit cached) = (h, ok cached)
  proceed database h (miss trimmed) = finish_search moka trimmed (database trimmed) h

  -- Both parts, with the database as the query's outcomes and nothing else in between.
  unfoldable pub search :
      (Text → Result (List SearchResult) (Unit {0}))
      → Bool
      → Text
      → CacheHandle C
      → CacheHandle C × Result (List SearchResult) String
  unfolding proceed
  search database ready query h = proceed database h (begin_search ready query h)

-- ===== src/LiveSearch/System.antt =====
-- Many requests at once: `search` of live-search/src/app.rs over the cache of
-- live-search/src/cache.rs, while the table changes and the listener of live-search/src/db.rs
-- invalidates. A request is taken apart at every access that others can see: the look-up in moka's
-- table, the comparison of the version, the query, the tagging of its rows and their insertion. Any
-- order of events is a run; an event of a client that is elsewhere leaves the system as it is.
mod Held
mod Steps
mod Kept
mod Versions
pub mod Consistency
mod Tests
use rust_web_fullstack.Prelude.{
  ℕ, Bool, ◌==◌, String, Text, Option, none, some, List, [], ◌∷◌, Result, ok, err, if◌then◌else◌,
}
use rust_web_fullstack.Domain.{SearchResult}
use rust_web_fullstack.LiveSearch.Cache.{
  CachedEntry, Moka, CacheHandle, new, current, tag, invalidate_all,
}
use rust_web_fullstack.LiveSearch.Search.{finish_search, normalized, refusal}
use rust_web_fullstack.LiveSearch.Search.Coherence.{Database}

-- Where a request stands.
pub data Stage : Type 0 where
  idle : Stage
  -- It has an entry of moka's and has not compared its version.
  comparing : Text → CachedEntry → Stage
  -- It waits for its rows, has them, or has tagged them and not inserted them.
  querying : Text → Stage
  storing : Text → List SearchResult → Stage
  tagged : Text → CachedEntry → Stage

pub record System (C : Type 0) : Type 0 where
  pub database : Database
  pub handle : CacheHandle C
  pub client : ℕ → Stage

pub data Event : Type 0 where
  -- A transaction commits: from now on queries answer otherwise.
  committed : Database → Event
  invalidated aged : Event
  -- A client asks and looks into moka's table; whether the context is set.
  asked : ℕ → Bool → Text → Event
  compared : ℕ → Event
  -- The query of a client reads the table, or fails.
  queried : ℕ → Bool → Event
  stamped inserted : ℕ → Event

-- The normalised query, and what the function returned.
abbrev pub Answer : Type 0
Answer = Text × Result (List SearchResult) String

abbrev pub update : (ℕ → Stage) → ℕ → Stage → ℕ → Stage
update client i stage j = if j == i then stage else client j

module _ {C : Type 0} (moka : Moka C) (to_lowercase : Text → Text) where
  unfoldable pub initial : Database → System C
  initial database = record { database = database; handle = new moka; client = λ i. idle }

  abbrev move : ℕ → Stage → System C → System C × Option Answer
  move i stage s = (record s { client = update s.client i stage }, none)

  -- The end of a request.
  abbrev answer : ℕ → Text → Result (List SearchResult) String → System C → System C × Option Answer
  answer i k result s = (record s { client = update s.client i idle }, some (k, result))

  look_up : ℕ → Text → Option CachedEntry → System C → System C × Option Answer
  look_up i k none s = move i (querying k) s
  look_up i k (some entry) s = move i (comparing k entry) s

  admit : ℕ → Text → Option String → System C → System C × Option Answer
  unfolding look_up
  admit i k (some message) s = answer i k (err message) s
  admit i k none s = look_up i k (moka.get k s.handle.cache) s

  pub on_asked : ℕ → Bool → Text → Stage → System C → System C × Option Answer
  unfolding admit
  on_asked i ready query idle s =
      let k = normalized moka to_lowercase query in admit i k (refusal moka to_lowercase ready k) s
  on_asked i ready query stage s = (s, none)

  hit_or_miss : ℕ → Text → Option (List SearchResult) → System C → System C × Option Answer
  hit_or_miss i k (some cached) s = answer i k (ok cached) s
  hit_or_miss i k none s = move i (querying k) s

  pub on_compared : ℕ → Stage → System C → System C × Option Answer
  unfolding hit_or_miss
  on_compared i (comparing k entry) s = hit_or_miss i k (current entry s.handle.version) s
  on_compared i stage s = (s, none)

  on_rows : ℕ → Text → Result (List SearchResult) (Unit {0}) → System C → System C × Option Answer
  on_rows i k (ok rows) s = move i (storing k rows) s
  on_rows i k (err e) s = answer i k (err "search service unavailable") s

  pub on_queried : ℕ → Bool → Stage → System C → System C × Option Answer
  unfolding on_rows
  on_queried i answered (querying k) s = on_rows i k (if answered then s.database k else err tt) s
  on_queried i answered stage s = (s, none)

  pub on_stamped : ℕ → Stage → System C → System C × Option Answer
  on_stamped i (storing k rows) s = move i (tagged k (tag rows s.handle.version)) s
  on_stamped i stage s = (s, none)

  pub on_inserted : ℕ → Stage → System C → System C × Option Answer
  on_inserted i (tagged k entry) s =
      answer i k (ok entry.data_of)
        (record s { handle = record s.handle { cache = moka.insert k entry s.handle.cache } })
  on_inserted i stage s = (s, none)

  unfoldable pub step : Event → System C → System C × Option Answer
  unfolding on_asked on_compared on_queried on_stamped on_inserted
  step (committed database) s = (record s { database = database }, none)
  step invalidated s = (record s { handle = invalidate_all s.handle }, none)
  step aged s = (record s { handle = record s.handle { cache = moka.age s.handle.cache } }, none)
  step (asked i ready query) s = on_asked i ready query (s.client i) s
  step (compared i) s = on_compared i (s.client i) s
  step (queried i answered) s = on_queried i answered (s.client i) s
  step (stamped i) s = on_stamped i (s.client i) s
  step (inserted i) s = on_inserted i (s.client i) s

  unfoldable pub after : List Event → System C → System C
  after [] s = s
  after (e ∷ es) s = after es (step e s).0

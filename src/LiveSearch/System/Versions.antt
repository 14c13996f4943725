-- ===== src/LiveSearch/System/Versions.antt =====
-- Which events change the version of the cache: live-search/src/cache.rs.
use rust_web_fullstack.Prelude.{
  ℕ, ◌+◌, ◌≤◌, Bool, String, Text, Option, none, some, List, Result, ok, err, ◌≡◌, refl, arith,
  if◌then◌else◌,
}
use rust_web_fullstack.Domain.{SearchResult}
use rust_web_fullstack.LiveSearch.Cache.{CachedEntry, Moka, current, invalidate_all}
use rust_web_fullstack.LiveSearch.Search.{normalized, refusal}
use rust_web_fullstack.LiveSearch.System.{
  Stage, idle, comparing, querying, storing, tagged, System, Event, committed, invalidated, aged,
  asked, compared, queried, stamped, inserted, look_up, admit, on_asked, hit_or_miss, on_compared,
  on_rows, on_queried, on_stamped, on_inserted, step,
}
use rust_web_fullstack.LiveSearch.System.Held.{is_invalidated}

module _ {C : Type 0} (moka : Moka C) (to_lowercase : Text → Text) where
  look_up-version :
      (i : ℕ) (k : Text) (o : Option CachedEntry) (s : System C)
      → (look_up moka to_lowercase i k o s).0.handle.version ≡ s.handle.version
  unfolding look_up
  look_up-version i k none s = refl
  look_up-version i k (some w) s = refl

  admit-version :
      (i : ℕ) (k : Text) (message : Option String) (s : System C)
      → (admit moka to_lowercase i k message s).0.handle.version ≡ s.handle.version
  unfolding admit
  admit-version i k (some message) s = refl
  admit-version i k none s = look_up-version i k (moka.get k s.handle.cache) s

  on_asked-version :
      (i : ℕ) (ready : Bool) (query : Text) (stage : Stage) (s : System C)
      → (on_asked moka to_lowercase i ready query stage s).0.handle.version ≡ s.handle.version
  unfolding on_asked
  on_asked-version i ready query idle s =
      let k = normalized moka to_lowercase query in
      admit-version i k (refusal moka to_lowercase ready k) s
  on_asked-version i ready query (comparing k w) s = refl
  on_asked-version i ready query (querying k) s = refl
  on_asked-version i ready query (storing k rows) s = refl
  on_asked-version i ready query (tagged k w) s = refl

  hit_or_miss-version :
      (i : ℕ) (k : Text) (o : Option (List SearchResult)) (s : System C)
      → (hit_or_miss moka to_lowercase i k o s).0.handle.version ≡ s.handle.version
  unfolding hit_or_miss
  hit_or_miss-version i k (some d) s = refl
  hit_or_miss-version i k none s = refl

  on_compared-version :
      (i : ℕ) (stage : Stage) (s : System C)
      → (on_compared moka to_lowercase i stage s).0.handle.version ≡ s.handle.version
  unfolding on_compared
  on_compared-version i (comparing k w) s = hit_or_miss-version i k (current w s.handle.version) s
  on_compared-version i idle s = refl
  on_compared-version i (querying k) s = refl
  on_compared-version i (storing k rows) s = refl
  on_compared-version i (tagged k w) s = refl

  on_rows-version :
      (i : ℕ) (k : Text) (rows : Result (List SearchResult) (Unit {0})) (s : System C)
      → (on_rows moka to_lowercase i k rows s).0.handle.version ≡ s.handle.version
  unfolding on_rows
  on_rows-version i k (ok rows) s = refl
  on_rows-version i k (err e) s = refl

  on_queried-version :
      (i : ℕ) (answered : Bool) (stage : Stage) (s : System C)
      → (on_queried moka to_lowercase i answered stage s).0.handle.version ≡ s.handle.version
  unfolding on_queried
  on_queried-version i answered (querying k) s =
      on_rows-version i k (if answered then s.database k else err tt) s
  on_queried-version i answered idle s = refl
  on_queried-version i answered (comparing k w) s = refl
  on_queried-version i answered (storing k rows) s = refl
  on_queried-version i answered (tagged k w) s = refl

  on_stamped-version :
      (i : ℕ) (stage : Stage) (s : System C)
      → (on_stamped moka to_lowercase i stage s).0.handle.version ≡ s.handle.version
  unfolding on_stamped
  on_stamped-version i (storing k rows) s = refl
  on_stamped-version i idle s = refl
  on_stamped-version i (comparing k w) s = refl
  on_stamped-version i (querying k) s = refl
  on_stamped-version i (tagged k w) s = refl

  on_inserted-version :
      (i : ℕ) (stage : Stage) (s : System C)
      → (on_inserted moka to_lowercase i stage s).0.handle.version ≡ s.handle.version
  unfolding on_inserted
  on_inserted-version i (tagged k w) s = refl
  on_inserted-version i idle s = refl
  on_inserted-version i (comparing k w) s = refl
  on_inserted-version i (querying k) s = refl
  on_inserted-version i (storing k rows) s = refl

  -- No step but an invalidation changes the version.
  pub step-version :
      (e : Event) (s : System C)
      → (step moka to_lowercase e s).0.handle.version ≤ s.handle.version + is_invalidated e
  unfolding step invalidate_all
  step-version (committed database) s = omega arith
  step-version invalidated s = omega arith
  step-version aged s = omega arith
  step-version (asked i ready query) s =
      omega (arith, on_asked-version i ready query (s.client i) s)
  step-version (compared i) s = omega (arith, on_compared-version i (s.client i) s)
  step-version (queried i answered) s = omega (arith, on_queried-version i answered (s.client i) s)
  step-version (stamped i) s = omega (arith, on_stamped-version i (s.client i) s)
  step-version (inserted i) s = omega (arith, on_inserted-version i (s.client i) s)

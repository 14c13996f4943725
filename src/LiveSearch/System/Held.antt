-- ===== src/LiveSearch/System/Held.antt =====
-- What an answer of `search` may be while the table changes: live-search/src/app.rs.
use rust_web_fullstack.Prelude.{ℕ, ◌+◌, Text, Option, none, some, List, [], ◌∷◌, ok, err, ◌≡◌, ◌⊎◌}
use rust_web_fullstack.Domain.{SearchResult}
use rust_web_fullstack.LiveSearch.Cache.{Moka}
use rust_web_fullstack.LiveSearch.Search.Coherence.{Database}
use rust_web_fullstack.LiveSearch.System.{
  Stage, storing, tagged, System, Event, committed, invalidated, Answer, step,
}

-- What one of these databases holds for a query.
abbrev pub Held : List Database → Text → List SearchResult → Type 0
Held [] k rows = ⊥
Held (database ∷ past) k rows = (database k ≡ ok rows) ⊎ Held past k rows

abbrev pub seen : Event → List Database → List Database
seen (committed database) past = database ∷ past
seen e past = past

abbrev pub is_invalidated : Event → ℕ
is_invalidated invalidated = 1
is_invalidated e = 0

abbrev pub invalidations : List Event → ℕ
invalidations [] = 0
invalidations (e ∷ es) = is_invalidated e + invalidations es

-- An error says nothing about the table.
abbrev pub Allowed : (Text → List SearchResult → Type 0) → Option Answer → Type 0
Allowed P none = Unit {0}
Allowed P (some (k, ok rows)) = P k rows
Allowed P (some (k, err message)) = Unit {0}

-- The rows that a request has read, and not yet inserted.
abbrev pub Flying : (Text → List SearchResult → Type 0) → Stage → Type 0
Flying P (storing k rows) = P k rows
Flying P (tagged k entry) = P k entry.data_of
Flying P stage = Unit {0}

abbrev pub InFlight : {C : Type 0} → (Text → List SearchResult → Type 0) → System C → Type 0
InFlight P s = (i : ℕ) → Flying P (s.client i)

module _ {C : Type 0} (moka : Moka C) (to_lowercase : Text → Text) where
  -- Every answer of a run is what one of the databases holds that were current by then.
  abbrev pub EachSeen : List Database → List Event → System C → Type 0
  EachSeen past [] s = Unit {0}
  EachSeen past (e ∷ es) s =
      Allowed (Held (seen e past)) (step moka to_lowercase e s).1
      × EachSeen (seen e past) es (step moka to_lowercase e s).0

-- ===== src/LiveSearch/Search/Coherence.antt =====
-- When a search answers with what the database holds: live-search/src/app.rs over
-- live-search/src/cache.rs.
use rust_web_fullstack.Prelude.{
  ◌==◌, ==_refl, false, ◌≡◌, refl, inl, inr, Bool, String, Text, Option, none, some, List, Result,
  ok, err, arith, Option-cases,
}
use rust_web_fullstack.Domain.{SearchResult}
use rust_web_fullstack.LiveSearch.Cache.{
  CachedEntry, Moka, IsCache, CacheHandle, get, insert, invalidate_all,
}
use rust_web_fullstack.LiveSearch.Search.{
  Start, refused, hit, miss, normalized, begin_search, finish_search, from_cache, refusal,
  unless_refused, proceed, search,
}

abbrev pub Database : Type 0
Database = Text → Result (List SearchResult) (Unit {0})

-- Whatever a look-up returns is what the database answers now.
abbrev pub IsCoherent : {C : Type 0} → Moka C → Database → CacheHandle C → Type 0
IsCoherent moka database h =
    (j : Text) (d : List SearchResult) → get moka j h ≡ some d → database j ≡ ok d

-- A success is the database's answer; a refusal says nothing.
abbrev pub Answers : Database → Text → Result (List SearchResult) String → Type 0
Answers database k (ok rows) = database k ≡ ok rows
Answers database k (err message) = Unit {0}

module _ {C : Type 0} (moka : Moka C) (law : IsCache moka) (database : Database) where
  insert-IsCoherent :
      (h : CacheHandle C) (k : Text) (rows : List SearchResult)
      → database k ≡ ok rows
      → IsCoherent moka database h
      → IsCoherent moka database (insert moka k rows h)
  unfolding get insert
  insert-IsCoherent h k rows now c j d e =
      let entry : CachedEntry = record { data_of = rows; version = h.version } in
      elim (Option-cases (moka.get j (moka.insert k entry h.cache))) [
        | inl missing ↦ ground arith
        | inr (w, found) ↦ elim (law.get-insert j k entry w h.cache found) [
          | inl (same, new) ↦ rw same (ground (arith, new))
          | inr old ↦ c j d (ground arith)
        ]
      ]

-- What the first part has found.
abbrev IsFound : {C : Type 0} → Moka C → Text → CacheHandle C → Start → Type 0
IsFound moka k h (refused message) = Unit {0}
IsFound moka k h (hit cached) = get moka k h ≡ some cached
IsFound moka k h (miss trimmed) = trimmed ≡ k

from_cache-IsFound :
    {C : Type 0} (moka : Moka C) (to_lowercase : Text → Text) (k : Text) (h : CacheHandle C)
    (o : Option (List SearchResult))
    → get moka k h ≡ o
    → IsFound moka k h (from_cache moka to_lowercase k o)
unfolding from_cache
from_cache-IsFound moka to_lowercase k h none e = refl
from_cache-IsFound moka to_lowercase k h (some cached) e = e

unless_refused-IsFound :
    {C : Type 0} (moka : Moka C) (to_lowercase : Text → Text) (refusal : Option String) (k : Text)
    (h : CacheHandle C)
    → IsFound moka k h (unless_refused moka to_lowercase refusal k h)
unfolding unless_refused
unless_refused-IsFound moka to_lowercase (some message) k h = tt
unless_refused-IsFound moka to_lowercase none k h =
    from_cache-IsFound moka to_lowercase k h (get moka k h) refl

begin_search-IsFound :
    {C : Type 0} (moka : Moka C) (to_lowercase : Text → Text) (ready : Bool) (query : Text)
    (h : CacheHandle C)
    → IsFound moka
        (normalized moka to_lowercase query)
        h
        (begin_search moka to_lowercase ready query h)
unfolding begin_search
begin_search-IsFound moka to_lowercase ready query h =
    let k = normalized moka to_lowercase query in
    unless_refused-IsFound moka to_lowercase (refusal moka to_lowercase ready k) k h

module _ {C : Type 0} (moka : Moka C) (to_lowercase : Text → Text) (database : Database)
    (h : CacheHandle C) (k : Text) (law : IsCache moka) (c : IsCoherent moka database h) where
  finish_search-IsCoherent :
      (rows : Result (List SearchResult) (Unit {0}))
      → database k ≡ rows
      → IsCoherent moka database (finish_search moka k rows h).0
        × Answers database k (finish_search moka k rows h).1
  unfolding finish_search
  finish_search-IsCoherent (ok rows) e = (insert-IsCoherent moka law database h k rows e c, e)
  finish_search-IsCoherent (err x) e = (c, tt)

  proceed-IsCoherent :
      (start : Start)
      → IsFound moka k h start
      → IsCoherent moka database (proceed moka to_lowercase database h start).0
        × Answers database k (proceed moka to_lowercase database h start).1
  unfolding proceed
  proceed-IsCoherent (refused message) f = (c, tt)
  proceed-IsCoherent (hit cached) f = (c, c k cached f)
  proceed-IsCoherent (miss trimmed) f = rw f (finish_search-IsCoherent (database k) refl)

-- Over a coherent cache, and if the database does not change meanwhile, a search that succeeds
-- answers with what the database holds for the normalised query, and a search leaves the cache
-- coherent whether it succeeds or not.
pub search-IsCoherent :
    {C : Type 0} (moka : Moka C) (to_lowercase : Text → Text) (database : Database) (ready : Bool)
    (query : Text) (h : CacheHandle C)
    → IsCache moka
    → IsCoherent moka database h
    → IsCoherent moka database (search moka to_lowercase database ready query h).0
      × Answers database
          (normalized moka to_lowercase query)
          (search moka to_lowercase database ready query h).1
unfolding search
search-IsCoherent moka to_lowercase database ready query h law c =
    proceed-IsCoherent moka to_lowercase database h (normalized moka to_lowercase query) law c
      (begin_search moka to_lowercase ready query h)
      (begin_search-IsFound moka to_lowercase ready query h)

-- A search that begins with a miss was not refused, and its key is the normalised query.
miss-key :
    {C : Type 0} (moka : Moka C) (to_lowercase : Text → Text) (ready : Bool) (query key : Text)
    (h : CacheHandle C)
    → begin_search moka to_lowercase ready query h ≡ miss key
    → (normalized moka to_lowercase query ≡ key) × (refusal moka to_lowercase ready key ≡ none)
unfolding begin_search unless_refused from_cache
miss-key moka to_lowercase ready query key h e =
    let k = normalized moka to_lowercase query in
    elim (Option-cases (refusal moka to_lowercase ready k)) [
      | inr (message, bad) ↦ absurd (ground arith)
      | inl admitted ↦ elim (Option-cases (get moka k h)) [
        | inl nothing ↦ (ground arith, ground arith)
        | inr (rows, found) ↦ absurd (ground arith)
      ]
    ]

-- The next version is another one.
version_moves : {C : Type 0} (h : CacheHandle C) → (h.version == (invalidate_all h).version) ≡ false
unfolding invalidate_all
version_moves h = ground arith

-- The race that the version does not cover. A search misses the cache and reads some rows. If it
-- inserts them before the cache is invalidated then the same search misses again afterwards. If the
-- cache is invalidated first then they are tagged with the new version, and the same search is
-- answered from them: with the rows that were read before the invalidation. Both hold as long as
-- moka holds the entry.
pub finish_search-stale :
    {C : Type 0} (moka : Moka C) (to_lowercase : Text → Text) (ready : Bool) (query key : Text)
    (h : CacheHandle C) (rows : List SearchResult)
    → ((k : Text) (v : CachedEntry) (c : C) → moka.get k (moka.insert k v c) ≡ some v)
    → begin_search moka to_lowercase ready query h ≡ miss key
    → (begin_search moka to_lowercase ready query
          (invalidate_all (finish_search moka key (ok rows) h).0)
        ≡ miss key)
      × (begin_search moka to_lowercase ready query
            (finish_search moka key (ok rows) (invalidate_all h)).0
          ≡ hit rows)
unfolding finish_search begin_search unless_refused from_cache get insert invalidate_all
finish_search-stale moka to_lowercase ready query key h rows retains missed =
    let (same, admitted) = miss-key moka to_lowercase ready query key h missed in
    let held = retains key (record { data_of = rows; version = h.version }) h.cache in
    let held_new =
      retains key (record { data_of = rows; version = (invalidate_all h).version })
        (invalidate_all h).cache in
    (
      rw (same, admitted, held, version_moves h) refl,
      rw (same, admitted, held_new, ==_refl (invalidate_all h).version) refl,
    )

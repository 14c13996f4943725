-- ===== src/LiveSearch/Cache.antt =====
-- live-search/src/cache.rs: the search cache with invalidation by version. The table that holds
-- the entries is moka's, the fields of `Moka`; it may drop an entry at any time.
pub mod Freshness
use rust_web_fullstack.Prelude.{
  ℕ, ◌+◌, ◌%◌, ◌^◌, ◌≡◌, ◌⊎◌, Bool, ◌==◌, if◌then◌else◌, Text, Option, none, some, List,
  bind_option,
}
use rust_web_fullstack.Domain.{SearchResult}

pub record CachedEntry : Type 0 where
  pub data_of : List SearchResult
  pub version : ℕ

pub record Moka (C : Type 0) : Type 0 where
  pub empty : C
  pub get : Text → C → Option CachedEntry
  pub insert : Text → CachedEntry → C → C
  -- Time passes: entries may expire or be evicted.
  pub age : C → C

-- What moka documents: it returns what was inserted last under a key, or nothing.
pub record IsCache {C : Type 0} (moka : Moka C) : Type 0 where
  pub get-empty : (j : Text) → moka.get j moka.empty ≡ none
  pub get-insert :
      (j k : Text) (v w : CachedEntry) (c : C)
      → moka.get j (moka.insert k v c) ≡ some w
      → ((j ≡ k) × (w ≡ v)) ⊎ (moka.get j c ≡ some w)
  pub get-age :
      (j : Text) (w : CachedEntry) (c : C)
      → moka.get j (moka.age c) ≡ some w
      → moka.get j c ≡ some w

pub record CacheHandle (C : Type 0) : Type 0 where
  pub cache : C
  pub version : ℕ

-- What `get` makes of an entry, and the entry that `insert` makes.
abbrev pub current : CachedEntry → ℕ → Option (List SearchResult)
current entry version = if entry.version == version then some entry.data_of else none

abbrev pub tag : List SearchResult → ℕ → CachedEntry
tag results version = record { data_of = results; version = version }

module _ {C : Type 0} (moka : Moka C) where
  unfoldable pub new : CacheHandle C
  new = record { cache = moka.empty; version = 0 }

  unfoldable pub get : Text → CacheHandle C → Option (List SearchResult)
  get query h = bind_option (moka.get query h.cache) λ entry. current entry h.version

  unfoldable pub insert : Text → List SearchResult → CacheHandle C → CacheHandle C
  insert query results h = record h { cache = moka.insert query (tag results h.version) h.cache }

-- `fetch_add(1)` on an `AtomicU64` wraps.
unfoldable pub invalidate_all : {C : Type 0} → CacheHandle C → CacheHandle C
invalidate_all h = record h { version = (h.version + 1) % 2 ^ 64 }

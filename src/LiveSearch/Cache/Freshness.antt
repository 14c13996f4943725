-- ===== src/LiveSearch/Cache/Freshness.antt =====
-- What a look-up may return: live-search/src/cache.rs.
use rust_web_fullstack.Prelude.{
  ℕ, suc, ◌^◌, ◌<◌, ◌≡◌, refl, ◌⊎◌, inl, inr, Text, some, List, [], ◌∷◌, arith, Option-cases,
}
use rust_web_fullstack.Domain.{SearchResult}
use rust_web_fullstack.LiveSearch.Cache.{
  CachedEntry, Moka, IsCache, CacheHandle, new, get, insert, invalidate_all,
}

-- What happens to a cache, the latest first.
pub data Op : Type 0 where
  inserted : Text → List SearchResult → Op
  invalidated aged : Op

module _ {C : Type 0} (moka : Moka C) where
  abbrev pub apply : Op → CacheHandle C → CacheHandle C
  apply (inserted k d) h = insert moka k d h
  apply invalidated h = invalidate_all h
  apply aged h = record h { cache = moka.age h.cache }

  unfoldable pub run : List Op → CacheHandle C
  unfolding new
  run [] = new moka
  run (op ∷ ops) = apply op (run ops)

-- The specification: the insertions since the last invalidation, the latest first.
pub contents : List Op → List (Text × List SearchResult)
contents [] = []
contents (inserted k d ∷ ops) = (k, d) ∷ contents ops
contents (invalidated ∷ ops) = []
contents (aged ∷ ops) = contents ops

abbrev pub invalidations : List Op → ℕ
invalidations [] = 0
invalidations (inserted k d ∷ ops) = invalidations ops
invalidations (invalidated ∷ ops) = suc (invalidations ops)
invalidations (aged ∷ ops) = invalidations ops

abbrev pub In : Text → List SearchResult → List (Text × List SearchResult) → Type 0
In j d [] = ⊥
In j d ((k, e) ∷ l) = ((j ≡ k) × (d ≡ e)) ⊎ In j d l

module _ {C : Type 0} (moka : Moka C) (law : IsCache moka) where
  version_run :
      (ops : List Op) → invalidations ops < 2 ^ 64 → (run moka ops).version ≡ invalidations ops
  unfolding run insert invalidate_all
  version_run [] b = refl
  version_run (inserted k d ∷ ops) b = version_run ops b
  version_run (invalidated ∷ ops) b = omega (arith, version_run ops (omega arith))
  version_run (aged ∷ ops) b = version_run ops b

  -- An entry is older than the last invalidation, or one of the insertions since.
  entries :
      (ops : List Op) (j : Text) (w : CachedEntry)
      → invalidations ops < 2 ^ 64
      → moka.get j (run moka ops).cache ≡ some w
      → (w.version < invalidations ops)
        ⊎ ((w.version ≡ invalidations ops) × In j w.data_of (contents ops))
  unfolding run insert invalidate_all contents
  entries [] j w b e = ground (arith, law.get-empty j)
  entries (inserted k d ∷ ops) j w b e = ground (
    arith,
    law.get-insert j k (record { data_of = d; version = (run moka ops).version }) w
        (run moka ops).cache e,
    entries ops j w b,
    version_run ops b,
  )
  entries (invalidated ∷ ops) j w b e = ground (arith, entries ops j w (omega arith) e)
  entries (aged ∷ ops) j w b e = entries ops j w b (law.get-age j w (run moka ops).cache e)

-- A look-up returns nothing, or results that were inserted under that key since the last
-- invalidation, whatever was inserted, invalidated and evicted before, in any order, as long as
-- there were fewer than 2 ^ 64 invalidations.
pub get-In :
    {C : Type 0} (moka : Moka C) (ops : List Op) (j : Text) (d : List SearchResult)
    → IsCache moka
    → invalidations ops < 2 ^ 64
    → get moka j (run moka ops) ≡ some d
    → In j d (contents ops)
unfolding get
get-In moka ops j d law b e = elim (Option-cases (moka.get j (run moka ops).cache)) [
  | inl missing ↦ ground arith
  | inr (w, found) ↦ ground (arith, entries moka law ops j w b found, version_run moka law ops b)
]

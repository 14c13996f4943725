-- ===== src/LiveSearch/System/Consistency.antt =====
-- How old an answer of `search` may be, in any run of many requests: live-search/src/app.rs over
-- live-search/src/cache.rs.
use rust_web_fullstack.Prelude.{
  ℕ, ◌+◌, ◌^◌, ◌<◌, ◌≤◌, Text, some, List, [], ◌∷◌, ok, ◌≡◌, refl, inl, inr, arith,
}
use rust_web_fullstack.Domain.{SearchResult}
use rust_web_fullstack.LiveSearch.Cache.{
  CachedEntry, Moka, IsCache, CacheHandle, new, invalidate_all,
}
use rust_web_fullstack.LiveSearch.Search.Coherence.{Database}
use rust_web_fullstack.LiveSearch.System.{
  System, Event, committed, invalidated, aged, asked, compared, queried, stamped, inserted, initial,
  step, after,
}
use rust_web_fullstack.LiveSearch.System.Held.{
  Held, seen, is_invalidated, invalidations, InFlight, EachSeen,
}
use rust_web_fullstack.LiveSearch.System.Steps.{Inv, Good}
use rust_web_fullstack.LiveSearch.System.Kept.{
  Behind, invalidate_all-Inv, Inv-Behind, Inv-mono, step-Good,
}
use rust_web_fullstack.LiveSearch.System.Versions.{step-version}

seen-Held :
    (e : Event) (past : List Database) (k : Text) (rows : List SearchResult)
    → Held past k rows
    → Held (seen e past) k rows
seen-Held (committed database) past k rows h = inr h
seen-Held invalidated past k rows h = h
seen-Held aged past k rows h = h
seen-Held (asked i ready query) past k rows h = h
seen-Held (compared i) past k rows h = h
seen-Held (queried i answered) past k rows h = h
seen-Held (stamped i) past k rows h = h
seen-Held (inserted i) past k rows h = h

committed-Held :
    (e : Event) (past : List Database) (database : Database)
    → e ≡ committed database
    → (k : Text) (rows : List SearchResult) → database k ≡ ok rows
    → Held (seen e past) k rows
committed-Held e past database is k rows h = rw is (inl h)

invalidated-version : {C : Type 0} (h : CacheHandle C) → (invalidate_all h).version ≤ h.version + 1
unfolding invalidate_all
invalidated-version h = omega arith

module _ {C : Type 0} (moka : Moka C) (to_lowercase : Text → Text) (law : IsCache moka) where
  abbrev Kept : List Database → System C → Type 0
  Kept past s = Inv moka to_lowercase law (Held past) s

  step-Seen :
      (e : Event) (past : List Database) (s : System C)
      → s.handle.version + is_invalidated e < 2 ^ 64
      → Kept past s
      → Good moka to_lowercase law (Held (seen e past)) (step moka to_lowercase e s)
  step-Seen e past s small inv =
      step-Good moka to_lowercase law (Held (seen e past)) e s small (committed-Held e past)
        (Inv-mono moka to_lowercase law (Held past) (Held (seen e past)) (seen-Held e past) s inv)

  run-EachSeen :
      (es : List Event) (past : List Database) (s : System C)
      → s.handle.version + invalidations es < 2 ^ 64
      → Kept past s
      → EachSeen moka to_lowercase past es s
  run-EachSeen [] past s small inv = tt
  run-EachSeen (e ∷ es) past s small inv =
      let (next, allowed) = step-Seen e past s (omega arith) inv in
      (
        allowed,
        run-EachSeen es (seen e past) (step moka to_lowercase e s).0
            (omega (arith, step-version moka to_lowercase e s)) next,
      )

  -- What a run leaves, whatever it answered: no version is still to come.
  record Left (most : ℕ) (s : System C) : Type 0 where
    version : s.handle.version ≤ most
    bounded :
        (j : Text) (w : CachedEntry)
        → moka.get j s.handle.cache ≡ some w
        → w.version ≤ s.handle.version
    behind : (i : ℕ) → Behind s.handle.version (s.client i)

  after-Left :
      (es : List Event) (past : List Database) (s : System C)
      → s.handle.version + invalidations es < 2 ^ 64
      → Kept past s
      → Left (s.handle.version + invalidations es) (after moka to_lowercase es s)
  unfolding after
  after-Left [] past s small inv = record {
    version = omega arith;
    bounded = inv.bounded;
    behind = Inv-Behind moka to_lowercase law (Held past) s inv;
  }
  after-Left (e ∷ es) past s small inv =
      let left =
        after-Left es (seen e past) (step moka to_lowercase e s).0
          (omega (arith, step-version moka to_lowercase e s))
          (step-Seen e past s (omega arith) inv).0 in
      record {
        version = omega (arith, left.version, step-version moka to_lowercase e s);
        bounded = left.bounded;
        behind = left.behind;
      }

  initial-Kept : (database : Database) → Kept (database ∷ []) (initial moka to_lowercase database)
  unfolding initial new
  initial-Kept database = record {
    bounded = λ j w e. absurd (cc (law.get-empty j));
    found = λ j w e same. absurd (cc (law.get-empty j));
    staged = λ i. tt;
    here = λ k rows e. inl e;
  }

  initial-version : (database : Database) → (initial moka to_lowercase database).handle.version ≡ 0
  unfolding initial new
  initial-version database = refl

-- Any number of requests, in any interleaving with commits, invalidations and evictions: after an
-- invalidation at which every request that has read its rows and not yet inserted them has read
-- what the table holds now, every answer is what the table held then or at some time since,
-- whatever the order of the events before and after it, as long as there are fewer than 2 ^ 64
-- invalidations.
pub after-EachSeen :
    {C : Type 0} (moka : Moka C) (to_lowercase : Text → Text) (database : Database)
    (es fs : List Event)
    → IsCache moka
    → invalidations es + invalidations fs + 1 < 2 ^ 64
    → InFlight
        (Held ((after moka to_lowercase es (initial moka to_lowercase database)).database ∷ []))
        (after moka to_lowercase es (initial moka to_lowercase database))
    → EachSeen moka to_lowercase
        ((after moka to_lowercase es (initial moka to_lowercase database)).database ∷ [])
        (invalidated ∷ fs)
        (after moka to_lowercase es (initial moka to_lowercase database))
unfolding step
after-EachSeen moka to_lowercase database es fs law small flying =
    let start = initial moka to_lowercase database in
    let t = after moka to_lowercase es start in
    let zero_version = initial-version moka to_lowercase law database in
    let left =
      after-Left moka to_lowercase law es (database ∷ []) start (omega (arith, zero_version))
        (initial-Kept moka to_lowercase law database) in
    (
      tt,
      run-EachSeen moka to_lowercase law fs (t.database ∷ [])
          (record t { handle = invalidate_all t.handle })
          (omega (arith, invalidated-version t.handle, left.version, zero_version))
          (invalidate_all-Inv moka to_lowercase law (Held (t.database ∷ [])) t
            (omega (arith, left.version, zero_version)) left.bounded left.behind flying
            (λ k rows e. inl e)),
    )

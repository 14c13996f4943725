-- ===== src/LiveSearch/System/Kept.antt =====
-- What an event keeps, an invalidation among them: live-search/src/app.rs, cache.rs.
use rust_web_fullstack.Prelude.{ℕ, ◌+◌, ◌^◌, ◌%◌, ◌<◌, ◌≤◌, Text, some, List, ok, ◌≡◌, refl, arith}
use rust_web_fullstack.Domain.{SearchResult}
use rust_web_fullstack.LiveSearch.Cache.{CachedEntry, Moka, IsCache, invalidate_all}
use rust_web_fullstack.LiveSearch.Search.Coherence.{Database}
use rust_web_fullstack.LiveSearch.System.{
  Stage, idle, comparing, querying, storing, tagged, System, Event, committed, invalidated, aged,
  asked, compared, queried, stamped, inserted, step,
}
use rust_web_fullstack.LiveSearch.System.Held.{is_invalidated, Flying, InFlight}
use rust_web_fullstack.LiveSearch.System.Steps.{
  Staged, Inv, Good, on_asked-Good, on_compared-Good, on_queried-Good, on_stamped-Good,
  on_inserted-Good, age-Inv,
}

-- No version that a request has is still to come.
abbrev pub Behind : ℕ → Stage → Type 0
Behind version (comparing k w) = w.version ≤ version
Behind version (tagged k w) = w.version ≤ version
Behind version stage = Unit {0}

module _ {C : Type 0} (moka : Moka C) (to_lowercase : Text → Text) (law : IsCache moka) where
  module _ (P : Text → List SearchResult → Type 0) where
    Staged-Behind :
        (version : ℕ) (stage : Stage)
        → Staged moka to_lowercase law P version stage
        → Behind version stage
    Staged-Behind version (comparing k w) h = h.0
    Staged-Behind version (tagged k w) h = h.0
    Staged-Behind version idle h = tt
    Staged-Behind version (querying k) h = tt
    Staged-Behind version (storing k rows) h = tt

    Staged-Flying :
        (version : ℕ) (stage : Stage)
        → Staged moka to_lowercase law P version stage
        → Flying P stage
    Staged-Flying version (comparing k w) h = tt
    Staged-Flying version (tagged k w) h = h.1
    Staged-Flying version idle h = tt
    Staged-Flying version (querying k) h = tt
    Staged-Flying version (storing k rows) h = h

    -- With the next version, what was looked up before is stale.
    Staged-next :
        (version : ℕ) (stage : Stage)
        → version + 1 < 2 ^ 64
        → Behind version stage
        → Flying P stage
        → Staged moka to_lowercase law P ((version + 1) % 2 ^ 64) stage
    Staged-next version (comparing k w) small b f = (omega arith, λ same. absurd (omega arith))
    Staged-next version (tagged k w) small b f = (omega arith, f)
    Staged-next version idle small b f = tt
    Staged-next version (querying k) small b f = tt
    Staged-next version (storing k rows) small b f = f

    pub invalidate_all-Inv :
        (s : System C)
        → s.handle.version + 1 < 2 ^ 64
        → ((j : Text) (w : CachedEntry)
            → moka.get j s.handle.cache ≡ some w
            → w.version ≤ s.handle.version)
        → ((i : ℕ) → Behind s.handle.version (s.client i))
        → InFlight P s
        → ((k : Text) (rows : List SearchResult) → s.database k ≡ ok rows → P k rows)
        → Inv moka to_lowercase law P (record s { handle = invalidate_all s.handle })
    unfolding invalidate_all
    invalidate_all-Inv s small bounded behind flying now = record {
      bounded = λ j w e. omega (arith, bounded j w e);
      found = λ j w e same. absurd (omega (arith, bounded j w e));
      staged = λ i. Staged-next s.handle.version (s.client i) small (behind i) (flying i);
      here = now;
    }

    pub Inv-Behind :
        (s : System C)
        → Inv moka to_lowercase law P s
        → (i : ℕ) → Behind s.handle.version (s.client i)
    Inv-Behind s inv i = Staged-Behind s.handle.version (s.client i) (inv.staged i)

    pub step-Good :
        (e : Event) (s : System C)
        → s.handle.version + is_invalidated e < 2 ^ 64
        → ((database : Database)
            → e ≡ committed database
            → (k : Text) (rows : List SearchResult) → database k ≡ ok rows
            → P k rows)
        → Inv moka to_lowercase law P s
        → Good moka to_lowercase law P (step moka to_lowercase e s)
    unfolding step
    step-Good (committed database) s small now inv = (
      record {
        bounded = inv.bounded;
        found = inv.found;
        staged = inv.staged;
        here = now database refl;
      },
      tt,
    )
    step-Good invalidated s small now inv = (
      invalidate_all-Inv s small inv.bounded (Inv-Behind s inv)
          (λ i. Staged-Flying s.handle.version (s.client i) (inv.staged i)) inv.here,
      tt,
    )
    step-Good aged s small now inv = (age-Inv moka to_lowercase law P s inv, tt)
    step-Good (asked i ready query) s small now inv =
        on_asked-Good moka to_lowercase law P i ready query (s.client i) s inv
    step-Good (compared i) s small now inv =
        on_compared-Good moka to_lowercase law P i (s.client i) s (inv.staged i) inv
    step-Good (queried i answered) s small now inv =
        on_queried-Good moka to_lowercase law P i answered (s.client i) s inv
    step-Good (stamped i) s small now inv =
        on_stamped-Good moka to_lowercase law P i (s.client i) s (inv.staged i) inv
    step-Good (inserted i) s small now inv =
        on_inserted-Good moka to_lowercase law P i (s.client i) s (inv.staged i) inv

  module _ (P Q : Text → List SearchResult → Type 0)
      (wider : (k : Text) (rows : List SearchResult) → P k rows → Q k rows) where
    Staged-mono :
        (version : ℕ) (stage : Stage)
        → Staged moka to_lowercase law P version stage
        → Staged moka to_lowercase law Q version stage
    Staged-mono version (comparing k w) h = (h.0, λ same. wider k w.data_of (h.1 same))
    Staged-mono version (tagged k w) h = (h.0, wider k w.data_of h.1)
    Staged-mono version idle h = tt
    Staged-mono version (querying k) h = tt
    Staged-mono version (storing k rows) h = wider k rows h

    pub Inv-mono : (s : System C) → Inv moka to_lowercase law P s → Inv moka to_lowercase law Q s
    Inv-mono s inv = record {
      bounded = inv.bounded;
      found = λ j w e same. wider j w.data_of (inv.found j w e same);
      staged = λ i. Staged-mono s.handle.version (s.client i) (inv.staged i);
      here = λ k rows e. wider k rows (inv.here k rows e);
    }

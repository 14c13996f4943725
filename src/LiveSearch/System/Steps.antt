-- ===== src/LiveSearch/System/Steps.antt =====
-- One event of many requests, and what it keeps: live-search/src/app.rs, cache.rs.
use rust_web_fullstack.Prelude.{
  ℕ, ◌≤◌, Bool, true, false, ◌==◌, String, Text, Option, none, some, List, Result, ok, err, ◌≡◌,
  refl, subst, inl, inr, arith, Bool-cases,
}
use rust_web_fullstack.Domain.{SearchResult}
use rust_web_fullstack.LiveSearch.Cache.{CachedEntry, Moka, IsCache, current, tag}
use rust_web_fullstack.LiveSearch.Search.{normalized, refusal}
use rust_web_fullstack.LiveSearch.System.{
  Stage, idle, comparing, querying, storing, tagged, System, Answer, update, look_up, admit,
  on_asked, hit_or_miss, on_compared, on_rows, on_queried, on_stamped, on_inserted,
}
use rust_web_fullstack.LiveSearch.System.Held.{Allowed}

module _ {C : Type 0} (moka : Moka C) (to_lowercase : Text → Text) (law : IsCache moka)
    (P : Text → List SearchResult → Type 0) where
  -- What holds of a request: no version is still to come, and its rows are allowed, those of an
  -- entry of moka's if its version is the current one.
  abbrev pub Staged : ℕ → Stage → Type 0
  Staged version (comparing k w) = (w.version ≤ version) × (w.version ≡ version → P k w.data_of)
  Staged version (storing k rows) = P k rows
  Staged version (tagged k w) = (w.version ≤ version) × P k w.data_of
  Staged version stage = Unit {0}

  pub record Inv (s : System C) : Type 0 where
    pub bounded :
        (j : Text) (w : CachedEntry)
        → moka.get j s.handle.cache ≡ some w
        → w.version ≤ s.handle.version
    pub found :
        (j : Text) (w : CachedEntry)
        → moka.get j s.handle.cache ≡ some w
        → w.version ≡ s.handle.version
        → P j w.data_of
    pub staged : (i : ℕ) → Staged s.handle.version (s.client i)
    pub here : (k : Text) (rows : List SearchResult) → s.database k ≡ ok rows → P k rows

  Staged-update :
      (version : ℕ) (client : ℕ → Stage) (i : ℕ) (stage : Stage)
      → ((j : ℕ) → Staged version (client j))
      → Staged version stage
      → (j : ℕ) → Staged version (update client i stage j)
  Staged-update version client i stage old latest j = elim (Bool-cases (j == i)) [
    | inl same ↦ rw same latest
    | inr other ↦ rw other (old j)
  ]

  move-Inv :
      (i : ℕ) (stage : Stage) (s : System C)
      → Staged s.handle.version stage
      → Inv s
      → Inv (record s { client = update s.client i stage })
  move-Inv i stage s latest inv = record {
    bounded = inv.bounded;
    found = inv.found;
    staged = Staged-update s.handle.version s.client i stage inv.staged latest;
    here = inv.here;
  }

  -- A step that goes on, with what it answers.
  abbrev pub Good : System C × Option Answer → Type 0
  Good r = Inv r.0 × Allowed P r.1

  look_up-Good :
      (i : ℕ) (k : Text) (o : Option CachedEntry) (s : System C)
      → moka.get k s.handle.cache ≡ o
      → Inv s
      → Good (look_up moka to_lowercase i k o s)
  unfolding look_up
  look_up-Good i k none s e inv = (move-Inv i (querying k) s tt inv, tt)
  look_up-Good i k (some w) s e inv =
      (move-Inv i (comparing k w) s (inv.bounded k w e, inv.found k w e) inv, tt)

  admit-Good :
      (i : ℕ) (k : Text) (message : Option String) (s : System C)
      → Inv s
      → Good (admit moka to_lowercase i k message s)
  unfolding admit
  admit-Good i k (some message) s inv = (move-Inv i idle s tt inv, tt)
  admit-Good i k none s inv = look_up-Good i k (moka.get k s.handle.cache) s refl inv

  pub on_asked-Good :
      (i : ℕ) (ready : Bool) (query : Text) (stage : Stage) (s : System C)
      → Inv s
      → Good (on_asked moka to_lowercase i ready query stage s)
  unfolding on_asked
  on_asked-Good i ready query idle s inv =
      let k = normalized moka to_lowercase query in
      admit-Good i k (refusal moka to_lowercase ready k) s inv
  on_asked-Good i ready query (comparing k w) s inv = (inv, tt)
  on_asked-Good i ready query (querying k) s inv = (inv, tt)
  on_asked-Good i ready query (storing k rows) s inv = (inv, tt)
  on_asked-Good i ready query (tagged k w) s inv = (inv, tt)

  hit_or_miss-Good :
      (i : ℕ) (k : Text) (o : Option (List SearchResult)) (s : System C)
      → ((d : List SearchResult) → o ≡ some d → P k d)
      → Inv s
      → Good (hit_or_miss moka to_lowercase i k o s)
  unfolding hit_or_miss
  hit_or_miss-Good i k (some d) s p inv = (move-Inv i idle s tt inv, p d refl)
  hit_or_miss-Good i k none s p inv = (move-Inv i (querying k) s tt inv, tt)

  current-allowed :
      (k : Text) (w : CachedEntry) (version : ℕ)
      → (w.version ≡ version → P k w.data_of)
      → (d : List SearchResult) → current w version ≡ some d
      → P k d
  current-allowed k w version p d e =
      let same : w.version ≡ version = ground arith in
      let rows : w.data_of ≡ d = ground arith in subst (P k) rows (p same)

  pub on_compared-Good :
      (i : ℕ) (stage : Stage) (s : System C)
      → Staged s.handle.version stage
      → Inv s
      → Good (on_compared moka to_lowercase i stage s)
  unfolding on_compared
  on_compared-Good i (comparing k w) s h inv =
      hit_or_miss-Good i k (current w s.handle.version) s (current-allowed k w s.handle.version h.1)
        inv
  on_compared-Good i idle s h inv = (inv, tt)
  on_compared-Good i (querying k) s h inv = (inv, tt)
  on_compared-Good i (storing k rows) s h inv = (inv, tt)
  on_compared-Good i (tagged k w) s h inv = (inv, tt)

  on_rows-Good :
      (i : ℕ) (k : Text) (rows : Result (List SearchResult) (Unit {0})) (s : System C)
      → ((d : List SearchResult) → rows ≡ ok d → P k d)
      → Inv s
      → Good (on_rows moka to_lowercase i k rows s)
  unfolding on_rows
  on_rows-Good i k (ok rows) s p inv = (move-Inv i (storing k rows) s (p rows refl) inv, tt)
  on_rows-Good i k (err e) s p inv = (move-Inv i idle s tt inv, tt)

  pub on_queried-Good :
      (i : ℕ) (answered : Bool) (stage : Stage) (s : System C)
      → Inv s
      → Good (on_queried moka to_lowercase i answered stage s)
  unfolding on_queried
  on_queried-Good i true (querying k) s inv = on_rows-Good i k (s.database k) s (inv.here k) inv
  on_queried-Good i false (querying k) s inv = on_rows-Good i k (err tt) s (λ d e. absurd (cc)) inv
  on_queried-Good i answered idle s inv = (inv, tt)
  on_queried-Good i answered (comparing k w) s inv = (inv, tt)
  on_queried-Good i answered (storing k rows) s inv = (inv, tt)
  on_queried-Good i answered (tagged k w) s inv = (inv, tt)

  pub on_stamped-Good :
      (i : ℕ) (stage : Stage) (s : System C)
      → Staged s.handle.version stage
      → Inv s
      → Good (on_stamped moka to_lowercase i stage s)
  unfolding on_stamped
  on_stamped-Good i (storing k rows) s h inv =
      (move-Inv i (tagged k (tag rows s.handle.version)) s (omega arith, h) inv, tt)
  on_stamped-Good i idle s h inv = (inv, tt)
  on_stamped-Good i (comparing k w) s h inv = (inv, tt)
  on_stamped-Good i (querying k) s h inv = (inv, tt)
  on_stamped-Good i (tagged k w) s h inv = (inv, tt)

  -- moka's table with one entry more.
  insert-Inv :
      (k : Text) (w : CachedEntry) (s : System C)
      → w.version ≤ s.handle.version
      → P k w.data_of
      → Inv s
      → Inv (record s { handle = record s.handle { cache = moka.insert k w s.handle.cache } })
  insert-Inv k w s small p inv = record {
    bounded = λ j v e. elim (law.get-insert j k w v s.handle.cache e) [
      | inl (same, latest) ↦ rw latest small
      | inr old ↦ inv.bounded j v old
    ];
    found = λ j v e now. elim (law.get-insert j k w v s.handle.cache e) [
      | inl (same, latest) ↦ rw (same, latest) p
      | inr old ↦ inv.found j v old now
    ];
    staged = inv.staged;
    here = inv.here;
  }

  pub on_inserted-Good :
      (i : ℕ) (stage : Stage) (s : System C)
      → Staged s.handle.version stage
      → Inv s
      → Good (on_inserted moka to_lowercase i stage s)
  unfolding on_inserted
  on_inserted-Good i (tagged k w) s h inv = (
    move-Inv i idle
        (record s { handle = record s.handle { cache = moka.insert k w s.handle.cache } }) tt
        (insert-Inv k w s h.0 h.1 inv),
    h.1,
  )
  on_inserted-Good i idle s h inv = (inv, tt)
  on_inserted-Good i (comparing k w) s h inv = (inv, tt)
  on_inserted-Good i (querying k) s h inv = (inv, tt)
  on_inserted-Good i (storing k rows) s h inv = (inv, tt)

  pub age-Inv :
      (s : System C)
      → Inv s
      → Inv (record s { handle = record s.handle { cache = moka.age s.handle.cache } })
  age-Inv s inv = record {
    bounded = λ j w e. inv.bounded j w (law.get-age j w s.handle.cache e);
    found = λ j w e. inv.found j w (law.get-age j w s.handle.cache e);
    staged = inv.staged;
    here = inv.here;
  }

-- ===== src/LiveSearch/System/Tests.antt =====
-- A run of two requests around a commit: live-search/src/app.rs.
use rust_web_fullstack.Prelude.{
  zero, suc, ==_of_ne, true, codes, some, List, [], ◌∷◌, ◌++◌, ok, ◌≡◌, refl, inl, arith,
}
use rust_web_fullstack.LiveSearch.Cache.{new, invalidate_all}
use rust_web_fullstack.LiveSearch.Search.{normalized}
use rust_web_fullstack.LiveSearch.Search.Coherence.{Database}
use rust_web_fullstack.LiveSearch.System.{
  Event, committed, invalidated, asked, compared, queried, stamped, inserted, initial, step, after,
}
use rust_web_fullstack.LiveSearch.System.Held.{Held, InFlight, EachSeen}
use rust_web_fullstack.LiveSearch.System.Consistency.{after-EachSeen}
use rust_web_fullstack.LiveSearch.Tests.{moka, moka-IsCache, result}

abbrev empty_table : Database
empty_table query = ok []

abbrev filled_table : Database
filled_table query = ok (result ∷ [])

-- The first request is answered before the commit, the second has read its rows after it.
abbrev before : List Event
before =
    asked 0 true (codes " rust ")
    ∷ queried 0 true
    ∷ stamped 0
    ∷ inserted 0
    ∷ committed filled_table
    ∷ asked 1 true (codes "sql")
    ∷ queried 1 true
    ∷ []

abbrev later : List Event
later =
    stamped 1
    ∷ inserted 1
    ∷ asked 2 true (codes "rust")
    ∷ compared 2
    ∷ queried 2 true
    ∷ stamped 2
    ∷ []

-- The third request has found the rows of the first, stale, and reads its own.
answers :
    (step moka
      (λ t. t)
      (inserted 2)
      (after moka (λ t. t) (before ++ invalidated ∷ later) (initial moka (λ t. t) empty_table))).1
    ≡ some (codes "rust", ok (result ∷ []))
unfolding step after initial normalized new invalidate_all
answers = refl

in_flight :
    InFlight
      (Held ((after moka (λ t. t) before (initial moka (λ t. t) empty_table)).database ∷ []))
      (after moka (λ t. t) before (initial moka (λ t. t) empty_table))
unfolding after step initial normalized new
in_flight zero = tt
in_flight (suc zero) = inl refl
in_flight (suc (suc i)) =
    rw
      (
        ==_of_ne (suc (suc i)) 0 (λ e. absurd (omega arith)),
        ==_of_ne (suc (suc i)) 1 (λ e. absurd (omega arith)),
      )
      tt

after-EachSeen_example :
    EachSeen moka
      (λ t. t)
      ((after moka (λ t. t) before (initial moka (λ t. t) empty_table)).database ∷ [])
      (invalidated ∷ later)
      (after moka (λ t. t) before (initial moka (λ t. t) empty_table))
after-EachSeen_example =
    after-EachSeen moka (λ t. t) empty_table before later moka-IsCache (omega arith) in_flight

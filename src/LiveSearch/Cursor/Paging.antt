-- ===== src/LiveSearch/Cursor/Paging.antt =====
-- Paging through a result: live-search/src/db.rs, `search_with_cursor`.
use rust_web_fullstack.Prelude.{
  ℕ, zero, suc, ◌+◌, ◌*◌, true, false, Option, none, some, List, [], ◌∷◌, ◌++◌, take, drop, keep,
  ◌≡◌, refl, sym, ap, ◌∙◌, arith, take-nil,
}
use rust_web_fullstack.LiveSearch.Cursor.{Position, precedes, search_with_cursor}

precedes_trans :
    (a b c : Position) → precedes a b ≡ true → precedes b c ≡ true → precedes a c ≡ true
unfolding precedes
precedes_trans a b c h k = ground arith

precedes_irrefl : (a : Position) → precedes a a ≡ false
unfolding precedes
precedes_irrefl a = ground arith

precedes_back :
    (a b c : Position) → precedes a b ≡ true → precedes a c ≡ false → precedes b c ≡ false
unfolding precedes
precedes_back a b c h k = ground arith

take-add : {R : Type 0} (n m : ℕ) (xs : List R) → take (n + m) xs ≡ take n xs ++ take m (drop n xs)
take-add zero m xs = ap (λ k. take k xs) (omega arith)
take-add (suc n) m [] = take-nil (suc n + m) ∙ sym (take-nil m)
take-add (suc n) m (x ∷ xs) =
    let assoc : suc n + m ≡ suc (n + m) = omega arith in
    ap (λ k. take k (x ∷ xs)) assoc ∙ ap (◌∷◌ x) (take-add n m xs)

module _ {R : Type 0} (position : R → Position) where
  abbrev IsBelow : Option Position → Position → Type 0
  IsBelow none p = Unit {0}
  IsBelow (some c) p = precedes p c ≡ true

  -- Rows in the order of the query, (created_at, id) descending, all below a cursor.
  abbrev pub Descends : Option Position → List R → Type 0
  Descends cursor [] = Unit {0}
  Descends cursor (r ∷ rows) = IsBelow cursor (position r) × Descends (some (position r)) rows

  last_of : Position → List R → Position
  last_of p [] = p
  last_of p (r ∷ rows) = last_of (position r) rows

  -- The cursor that a client makes from the last row that it has.
  pub last_position : List R → Option Position
  last_position [] = none
  last_position (r ∷ rows) = some (last_of (position r) rows)

  Descends-weaken :
      (d c : Position) (rows : List R)
      → precedes d c ≡ true
      → Descends (some d) rows
      → Descends (some c) rows
  Descends-weaken d c [] h v = tt
  Descends-weaken d c (r ∷ rows) h (a, v) = (precedes_trans (position r) d c a h, v)

  Descends-take :
      (n : ℕ) (c : Option Position) (rows : List R) → Descends c rows → Descends c (take n rows)
  Descends-take zero c rows v = tt
  Descends-take (suc n) c [] v = tt
  Descends-take (suc n) c (r ∷ rows) (a, v) = (a, Descends-take n (some (position r)) rows v)

  keep_all :
      (c : Position) (rows : List R)
      → Descends (some c) rows
      → keep (λ r. precedes (position r) c) rows ≡ rows
  keep_all c [] v = refl
  keep_all c (r ∷ rows) (a, v) =
      rw (a, keep_all c rows (Descends-weaken (position r) c rows a v)) refl

  not_before_last :
      (p : Position) (rows : List R) → Descends (some p) rows → precedes p (last_of p rows) ≡ false
  unfolding last_of
  not_before_last p [] v = precedes_irrefl p
  not_before_last p (r ∷ rows) (a, v) =
      precedes_back (position r) p (last_of (position r) rows) a
        (not_before_last (position r) rows v)

  after_page :
      (n : ℕ) (p : Position) (rows : List R)
      → Descends (some p) rows
      → keep (λ r. precedes (position r) (last_of p (take n rows))) rows ≡ drop n rows
  unfolding last_of
  after_page zero p rows v = keep_all p rows v
  after_page (suc n) p [] v = refl
  after_page (suc n) p (r ∷ rows) (a, v) =
      rw
        (
          not_before_last (position r) (take n rows) (Descends-take n (some (position r)) rows v),
          after_page n (position r) rows v,
        )
        refl

  next_page :
      (n limit : ℕ) (rows : List R)
      → Descends none rows
      → search_with_cursor position (last_position (take n rows)) limit rows
        ≡ take limit (drop n rows)
  unfolding search_with_cursor last_position last_of
  next_page zero limit rows v = refl
  next_page (suc n) limit [] v = refl
  next_page (suc n) limit (r ∷ rows) (a, v) =
      rw
        (
          not_before_last (position r) (take n rows) (Descends-take n (some (position r)) rows v),
          after_page n (position r) rows v,
        )
        refl

  -- A client that asks for the rows after the last one that it has, k times.
  pub follow : ℕ → ℕ → List R → List R → List R
  unfolding last_position
  follow zero limit rows have = have
  follow (suc k) limit rows have =
      follow k limit rows (have ++ search_with_cursor position (last_position have) limit rows)

  follow_from :
      (k n limit : ℕ) (rows : List R)
      → Descends none rows
      → follow k limit rows (take n rows) ≡ take (n + k * limit) rows
  unfolding follow
  follow_from zero n limit rows v = ap (λ m. take m rows) (omega arith)
  follow_from (suc k) n limit rows v =
      ap (λ page. follow k limit rows (take n rows ++ page)) (next_page n limit rows v)
      ∙ ap (follow k limit rows) (sym (take-add n limit rows))
      ∙ follow_from k (n + limit) limit rows v
      ∙ ap (λ m. take m rows) (omega arith)

  -- Over rows in the order of the query, a client that follows the cursor of the last row it has
  -- gets after k pages exactly the first k * limit rows: none twice and none left out.
  pub follow-take :
      (k limit : ℕ) (rows : List R)
      → Descends none rows
      → follow k limit rows [] ≡ take (k * limit) rows
  follow-take k limit rows v = follow_from k 0 limit rows v ∙ ap (λ n. take n rows) (omega arith)

-- ===== src/Auth/Store/Counts.antt =====
-- How many rows of `refresh_tokens` satisfy a test, and how each statement changes that number.
-- The database's constraints and the family rules are bounds on such numbers.
use rust_web_fullstack.Prelude.{
  ℕ, ◌+◌, ◌≤◌, ◌<◌, Bool, true, false, ◌&&◌, ◌||◌, ◌==◌, if◌then◌else◌, none, some, [], ◌∷◌, map,
  any, ok, ◌≡◌, refl, arith, ◌↔◌,
}
use rust_web_fullstack.Domain.{Uuid, DateTime}
use rust_web_fullstack.Auth.Store.{
  Row, Table, is_live, first, replace_if, mark_replaced, insert, delete,
}

unfoldable pub count : (Row → Bool) → Table → ℕ
count p [] = 0
count p (r ∷ t) = (if p r then 1 else 0) + count p t

abbrev pub has_jti : Uuid → Row → Bool
has_jti j r = r.jti == j

abbrev pub has_digest : ℕ → Row → Bool
has_digest h r = r.hashed_token == h

abbrev pub in_family : Uuid → Row → Bool
in_family f r = r.family_id == f

abbrev pub of_subject : Uuid → Row → Bool
of_subject u r = r.subject == u

abbrev pub is_replaced : Row → Bool
is_replaced r = elim r.replaced_by [ none ↦ false | some j ↦ true ]

pub first-eq-none_iff : (p : Row → Bool) (t : Table) → (first p t ≡ none) ↔ (count p t ≡ 0)
unfolding count
first-eq-none_iff p [] = ground arith
first-eq-none_iff p (r ∷ t) = ground (arith, first-eq-none_iff p t)

pub first_holds : (p : Row → Bool) (t : Table) {r : Row} → first p t ≡ some r → p r ≡ true
first_holds p [] e = ground arith
first_holds p (x ∷ t) {r} e = ground (arith, first_holds p t {r = r})

pub count-pos_of_first :
    (p q : Row → Bool) (t : Table) {r : Row} → first p t ≡ some r → q r ≡ true → 0 < count q t
unfolding count
count-pos_of_first p q [] e h = ground arith
count-pos_of_first p q (x ∷ t) {r} e h = ground (arith, count-pos_of_first p q t {r = r})

-- A test that an update leaves alone counts the same rows afterwards.
pub count-map_stable :
    (s : Row → Bool) (f : Row → Row)
    → ((r : Row) → s (f r) ≡ s r)
    → (t : Table) → count s (map f t) ≡ count s t
unfolding count
count-map_stable s f h [] = refl
count-map_stable s f h (r ∷ t) = ground (arith, h r, count-map_stable s f h t)

pub count-map-le :
    (s : Row → Bool) (f : Row → Row)
    → ((r : Row) → s (f r) ≡ true → s r ≡ true)
    → (t : Table) → count s (map f t) ≤ count s t
unfolding count
count-map-le s f h [] = omega arith
count-map-le s f h (r ∷ t) = ground (arith, h r, count-map-le s f h t)

pub count-map-eq-zero :
    (s : Row → Bool) (f : Row → Row)
    → ((r : Row) → s (f r) ≡ false)
    → (t : Table) → count s (map f t) ≡ 0
unfolding count
count-map-eq-zero s f h [] = refl
count-map-eq-zero s f h (r ∷ t) = ground (arith, h r, count-map-eq-zero s f h t)

live_replace_if :
    (s : Row → Bool) (now : DateTime) (new jti : Uuid)
    → ((r : Row) → s (replace_if now new jti r) ≡ s r)
    → (r : Row) → (s (replace_if now new jti r) && is_live (replace_if now new jti r)) ≡ true
    → (s r && is_live r) ≡ true
live_replace_if s now new jti h r e = ground (arith, h r)

-- Marking the row that a read found takes one live row away, at least.
pub count-mark_replaced :
    (p s : Row → Bool) (now : DateTime) (new : Uuid) (old : Row) (t : Table)
    → ((r : Row) → s (replace_if now new old.jti r) ≡ s r)
    → first p t ≡ some old
    → s old ≡ true
    → is_live old ≡ true
    → count (λ r. s r && is_live r) (mark_replaced now new old.jti t) + 1
      ≤ count (λ r. s r && is_live r) t
unfolding count mark_replaced
count-mark_replaced p s now new old [] h e so lo = ground arith
count-mark_replaced p s now new old (r ∷ t) h e so lo = ground (
  arith,
  h r,
  count-mark_replaced p s now new old t h,
  count-map-le (λ x. s x && is_live x) (replace_if now new old.jti)
      (live_replace_if s now new old.jti h) t,
)

count-append_or :
    (p q : Row → Bool) (t : Table)
    → any (λ r. p r || q r) t ≡ false
    → (count p t ≡ 0) × (count q t ≡ 0)
unfolding count
count-append_or p q [] e = (refl, refl)
count-append_or p q (r ∷ t) e = ground (arith, count-append_or p q t)

-- A row that was inserted is new under both unique constraints.
pub insert_fresh :
    (up : Bool) (new : Row) (t : Table) {u : Table}
    → insert up new t ≡ ok u
    → (u ≡ new ∷ t) × (count (has_jti new.jti) t ≡ 0) × (count (has_digest new.hashed_token) t ≡ 0)
unfolding insert
insert_fresh up new t {u} e =
    ground (arith, count-append_or (has_jti new.jti) (has_digest new.hashed_token) t)

-- Deleting by an identifier that no row has changes nothing.
pub delete_absent : (j : Uuid) (t : Table) → count (has_jti j) t ≡ 0 → delete j t ≡ t
unfolding count delete
delete_absent j [] e = refl
delete_absent j (r ∷ t) e = ground (arith, delete_absent j t)

pub count-le-and : (p q : Row → Bool) (t : Table) → count (λ r. p r && q r) t ≤ count p t
unfolding count
count-le-and p q [] = omega arith
count-le-and p q (r ∷ t) = ground (arith, count-le-and p q t)

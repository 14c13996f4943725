-- ===== src/Auth/Refresh/View/Marked.antt =====
-- How the statements of gateway/src/auth/refresh.rs change the meaning of the table.
use rust_web_fullstack.Prelude.{
  ℕ, ◌≤◌, Bool, true, false, ◌&&◌, ◌==◌, ==_iff, ==_refl, if◌then◌else◌, none, some, [], ◌∷◌, map,
  ◌≡◌, refl, sym, ap, ◌≢◌, ◌∙◌, inl, inr, arith, Option-cases,
}
use mathlib.Core.Path.{fun_ext}
use rust_web_fullstack.Prelude.Int.{ltb_ℤ}
use rust_web_fullstack.Domain.{Uuid, DateTime}
use rust_web_fullstack.Auth.Store.{
  Row, Table, is_live, first, select_active, select_any, mark_replaced, replace_if, revoke_if,
  revoke_family,
}
use rust_web_fullstack.Auth.Store.Counts.{
  count, has_jti, has_digest, in_family, first_holds, count-pos_of_first,
}
use rust_web_fullstack.Auth.Refresh.Integrity.{IsSound}
use rust_web_fullstack.Auth.Refresh.Isolation.{active_is_any}
use rust_web_fullstack.Auth.Refresh.View.{unknown, spent, view, view_row, spend}

-- Two rows that reads find are the same, if one row at most passes a test that both pass.
first_same :
    (p q s : Row → Bool) (t : Table) (x y : Row)
    → first p t ≡ some x
    → first q t ≡ some y
    → s x ≡ true
    → s y ≡ true
    → count s t ≤ 1
    → x ≡ y
unfolding count
first_same p q s [] x y ex ey sx sy one = ground arith
first_same p q s (r ∷ t) x y ex ey sx sy one = ground (
  arith,
  first_same p q s t x y,
  count-pos_of_first p s t {r = x},
  count-pos_of_first q s t {r = y},
)

-- An update that keeps the digests does to the row that a look-up finds what it does to every row.
view-map :
    (f : Row → Row)
    → ((h : ℕ) (r : Row) → has_digest h (f r) ≡ has_digest h r)
    → (h : ℕ) (t : Table)
    → view (map f t) h ≡ elim (select_any h t) [ none ↦ unknown | some r ↦ view_row (f r) ]
unfolding view select_any
view-map f same h [] = refl
view-map f same h (r ∷ t) = ground (arith, same h r, view-map f same h t)

pub view-revoke_family :
    (now : DateTime) (f : Uuid) (t : Table)
    → view (revoke_family now f t) ≡ (λ d. spend f (view t d))
unfolding revoke_family view
view-revoke_family now f t =
    fun_ext λ d. ground (arith, view-map (revoke_if (in_family f) now) (λ h r. ground arith) d t)

pub view-cons :
    (new : Row) (t : Table) (d : ℕ)
    → view (new ∷ t) d ≡ (if new.hashed_token == d then view_row new else view t d)
unfolding view select_any
view-cons new t d = ground arith

-- Two rows that look-ups find are the same if they agree on their digest or their identifier.
same_row :
    (d h : ℕ) (r old : Row) (t : Table)
    → IsSound t
    → select_any d t ≡ some r
    → select_any h t ≡ some old
    → ((d ≡ h) → r ≡ old) × ((r.jti ≡ old.jti) → (r ≡ old) × (d ≡ h))
unfolding select_any
same_row d h r old t v known found =
    let owns : has_digest d r ≡ true = first_holds (has_digest d) t known in
    let owned : has_digest h old ≡ true = first_holds (has_digest h) t found in
    (
      (λ e. first_same _ _ (has_digest h) t r old known found (ground arith) owned (v.digests h)),
      λ e.
          let one =
            first_same _ _ (has_jti old.jti) t r old known found (ground (arith, ==_refl old.jti))
              (==_refl old.jti) (v.jtis old.jti) in
          (one, ground arith),
    )

-- What `present` leaves of the table's meaning when it exchanges `old` for `new`.
pub view-marked :
    (h : ℕ) (now : DateTime) (new old : Row) (t : Table)
    → IsSound t
    → select_any h t ≡ some old
    → (d : ℕ)
    → view (mark_replaced now new.jti old.jti t) d
      ≡ (if d == h then spent old.family_id else view t d)
unfolding mark_replaced view
view-marked h now new old t v found d =
    let marked = view-map (replace_if now new.jti old.jti) (λ g r. ground arith) d t in
    elim (Option-cases (select_any d t)) [
      | inl missing ↦ ground (arith, marked, ==_iff d h)
      | inr (r, known) ↦
          let same = same_row d h r old t v known found in
          ground (arith, marked, ==_iff d h, ==_iff r.jti old.jti, same, ==_refl old.jti)
    ]

-- The only row under a digest is not live, or has expired, where no active one is found.
pub inactive :
    (h : ℕ) (now : DateTime) (t : Table) (r : Row)
    → select_active h now t ≡ none
    → select_any h t ≡ some r
    → (is_live r && ltb_ℤ now r.expires_at) ≡ false
unfolding select_active select_any
inactive h now [] r gone found = ground arith
inactive h now (x ∷ t) r gone found = ground (arith, inactive h now t r)

unseen :
    (h : ℕ) (now : DateTime) (t : Table) {old : Row}
    → select_any h t ≡ none
    → select_active h now t ≢ some old
unfolding select_active select_any
unseen h now [] e f = ground arith
unseen h now (x ∷ t) {old} e f = ground (arith, unseen h now t {old = old})

pub active_known :
    (h : ℕ) (now : DateTime) (t : Table) (old : Row)
    → select_active h now t ≡ some old
    → IsSound t
    → select_any h t ≡ some old
active_known h now t old active v = elim (Option-cases (select_any h t)) [
  | inl missing ↦ absurd (unseen h now t missing active)
  | inr (r, found) ↦ found ∙ ap some (sym (active_is_any h now t old r active found (v.digests h)))
]

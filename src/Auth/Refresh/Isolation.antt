-- ===== src/Auth/Refresh/Isolation.antt =====
-- What one call of `rotate` leaves alone: gateway/src/auth/refresh.rs.
use rust_web_fullstack.Prelude.{
  ℕ, ◌≤◌, Bool, true, false, ◌&&◌, not, Text, some, [], ◌∷◌, map, keep, ◌≡◌, refl, arith,
}
use rust_web_fullstack.Prelude.Int.{ℤ, ltb_ℤ}
use rust_web_fullstack.Domain.{Uuid, DateTime}
use rust_web_fullstack.Auth.Store.{
  Row, Table, is_live, select_active, select_any, first, mark_replaced, replace_if, revoke_if,
  revoke_family,
}
use rust_web_fullstack.Auth.Store.Counts.{
  count, has_jti, has_digest, in_family, first_holds, count-pos_of_first,
}
use rust_web_fullstack.Auth.Refresh.{Libraries, Outcomes, rotate, hash_refresh_token}
use rust_web_fullstack.Auth.Refresh.Integrity.{IsSound}
use rust_web_fullstack.Auth.Refresh.Effects.{Effect, unchanged, revoked, rotated, rotate-Effect}

first_unique :
    (p q : Row → Bool) (t : Table) (x y : Row)
    → ((r : Row) → p r ≡ true → q r ≡ true)
    → first p t ≡ some x
    → first q t ≡ some y
    → count q t ≤ 1
    → x ≡ y
unfolding count
first_unique p q [] x y h ex ey one = ground arith
first_unique p q (r ∷ t) x y h ex ey one = ground (
  arith,
  h r,
  first_unique p q t x y h,
  count-pos_of_first p q t {r = x},
  h x,
  first_holds p t {r = x},
)

-- The rows outside a family.
abbrev pub others : Uuid → Table → Table
others f = keep (λ r. not (in_family f r))

others-map :
    (f : Uuid) (g : Row → Row)
    → ((r : Row) → in_family f (g r) ≡ in_family f r)
    → ((r : Row) → in_family f r ≡ false → g r ≡ r)
    → (t : Table) → others f (map g t) ≡ others f t
others-map f g same idle [] = refl
others-map f g same idle (r ∷ t) = ground (arith, same r, idle r, others-map f g same idle t)

mark_absent :
    (now : DateTime) (new j : Uuid) (t : Table)
    → count (has_jti j) t ≡ 0
    → map (replace_if now new j) t ≡ t
unfolding count
mark_absent now new j [] e = refl
mark_absent now new j (r ∷ t) e = ground (arith, mark_absent now new j t)

others-mark_replaced :
    (p : Row → Bool) (now : DateTime) (new : Uuid) (old : Row) (t : Table)
    → first p t ≡ some old
    → count (has_jti old.jti) t ≤ 1
    → others old.family_id (map (replace_if now new old.jti) t) ≡ others old.family_id t
unfolding count
others-mark_replaced p now new old [] e one = ground arith
others-mark_replaced p now new old (r ∷ t) e one = ground (
  arith,
  mark_absent now new old.jti t,
  others-mark_replaced p now new old t,
  count-pos_of_first p (has_jti old.jti) t {r = old},
)

others-marked :
    (h : ℕ) (now : DateTime) (new : Uuid) (old : Row) (t : Table)
    → select_active h now t ≡ some old
    → count (has_jti old.jti) t ≤ 1
    → others old.family_id (mark_replaced now new old.jti t) ≡ others old.family_id t
unfolding select_active mark_replaced
others-marked h now new old t e one = others-mark_replaced _ now new old t e one

pub active_is_any :
    (h : ℕ) (now : DateTime) (t : Table) (old r : Row)
    → select_active h now t ≡ some old
    → select_any h t ≡ some r
    → count (has_digest h) t ≤ 1
    → old ≡ r
unfolding select_active select_any
active_is_any h now t old r active found one =
    first_unique (λ x. has_digest h x && is_live x && ltb_ℤ now x.expires_at) (has_digest h) t old r
      (λ x e. ground arith) active found one

-- On a table that keeps its rules, a call that presents a known token leaves every row outside that
-- token's family as it was, whatever the call meets and answers; the one row that it may add
-- belongs to that family.
pub rotate_confined :
    (lib : Libraries) (io : Outcomes) (raw : Text) (now : DateTime) (ttl : ℤ) (t : Table) (r : Row)
    → IsSound t
    → select_any (hash_refresh_token lib raw) t ≡ some r
    → others r.family_id (rotate lib io raw now ttl t).0 ≡ others r.family_id t
unfolding mark_replaced revoke_family
rotate_confined lib io raw now ttl t r v found = confined (rotate-Effect lib io raw now t ttl)
  where
    confined : {u : Table} → Effect lib io raw now t u → others r.family_id u ≡ others r.family_id t
    confined (unchanged e) = rw e
    confined (revoked x same e) = rw e (
        others-map r.family_id (revoke_if (in_family x.family_id) now) (λ y. ground arith)
          (λ y h. ground arith) t)
    confined (rotated old token until active e jti digest) =
        let here : old ≡ r =
          active_is_any (hash_refresh_token lib raw) now t old r active found
            (v.digests (hash_refresh_token lib raw)) in
        let there =
          others-marked (hash_refresh_token lib raw) now io.new_v4 old t active (v.jtis old.jti) in
        ground (arith, here, there)

-- ===== src/Auth/Refresh/Integrity.antt =====
-- The rules that the table of refresh tokens keeps, and that `rotate` preserves them on every path:
-- gateway/src/auth/refresh.rs over migrations/100 and 101.
use rust_web_fullstack.Prelude.{
  ℕ, ◌≤◌, ◌<◌, Bool, true, false, ◌&&◌, Text, some, ◌∷◌, ◌≡◌, refl, inr, arith, ◌==◌, ==_refl, ◌⊎◌,
  map,
}
use rust_web_fullstack.Prelude.Int.{ℤ, ltb_ℤ}
use rust_web_fullstack.Domain.{Uuid, DateTime}
use rust_web_fullstack.Auth.Store.{
  Row, Table, is_live, select_active, mark_replaced, replace_if, revoke_if, revoke_family,
}
use rust_web_fullstack.Auth.Store.Counts.{
  count, has_jti, has_digest, in_family, is_replaced, count-map_stable, count-map-le,
  count-mark_replaced, count-pos_of_first, first_holds,
}
use rust_web_fullstack.Auth.Refresh.{Libraries, Outcomes, rotate, hash_refresh_token}
use rust_web_fullstack.Auth.Refresh.Rotation.{successor}
use rust_web_fullstack.Auth.Refresh.Effects.{Effect, unchanged, revoked, rotated, rotate-Effect}

abbrev pub live_in : Uuid → Row → Bool
live_in f r = in_family f r && is_live r

-- Identifiers and digests are unique, a family has one live token at most, and holds the row that
-- it is named after; a token that was replaced is not live.
pub record IsSound (t : Table) : Type 0 where
  pub jtis : (j : Uuid) → count (has_jti j) t ≤ 1
  pub digests : (h : ℕ) → count (has_digest h) t ≤ 1
  pub one_live : (f : Uuid) → count (live_in f) t ≤ 1
  pub rooted : (f : Uuid) → count (has_jti f) t ≡ 0 → count (in_family f) t ≡ 0
  pub replaced_dead : count (λ r. is_live r && is_replaced r) t ≡ 0

-- An update that keeps the identity of every row, revives none and names a replacement only where
-- it revokes, keeps the rules.
pub map-IsSound :
    (f : Row → Row)
    → ((j : Uuid) (r : Row) → has_jti j (f r) ≡ has_jti j r)
    → ((h : ℕ) (r : Row) → has_digest h (f r) ≡ has_digest h r)
    → ((g : Uuid) (r : Row) → in_family g (f r) ≡ in_family g r)
    → ((r : Row) → is_live (f r) ≡ true → is_live r ≡ true)
    → ((r : Row)
        → (is_live (f r) && is_replaced (f r)) ≡ true
        → (is_live r && is_replaced r) ≡ true)
    → (t : Table) → IsSound t
    → IsSound (map f t)
map-IsSound f same_jti same_digest same_family no_revival dead t v = record {
  jtis = λ j. rw (count-map_stable (has_jti j) f (same_jti j) t) (v.jtis j);
  digests = λ h. rw (count-map_stable (has_digest h) f (same_digest h) t) (v.digests h);
  one_live = λ g. omega (
    arith,
    v.one_live g,
    count-map-le (live_in g) f (λ r e. ground (arith, same_family g r, no_revival r)) t,
  );
  rooted = λ g e.
      rw (count-map_stable (in_family g) f (same_family g) t)
        (v.rooted g (rw (count-map_stable (has_jti g) f (same_jti g) t) at e));
  replaced_dead =
      omega (arith, v.replaced_dead, count-map-le (λ r. is_live r && is_replaced r) f dead t);
}

pub revoke_family-IsSound :
    (now : DateTime) (g : Uuid) (t : Table) → IsSound t → IsSound (revoke_family now g t)
unfolding revoke_family
revoke_family-IsSound now g t v =
    map-IsSound (revoke_if (in_family g) now) (λ j r. ground arith) (λ h r. ground arith)
      (λ f r. ground arith) (λ r e. ground arith) (λ r e. ground arith) t v

mark_replaced-IsSound :
    (now : DateTime) (new old : Uuid) (t : Table)
    → IsSound t
    → IsSound (mark_replaced now new old t)
unfolding mark_replaced
mark_replaced-IsSound now new old t v =
    map-IsSound (replace_if now new old) (λ j r. ground arith) (λ h r. ground arith)
      (λ f r. ground arith) (λ r e. ground arith) (λ r e. ground arith) t v

-- A row may be added if its identifier and digest are new, it replaces nothing yet, its family is
-- its own or has a row already, and no other row of its family is live.
pub insert-IsSound :
    (new : Row) (t : Table)
    → count (has_jti new.jti) t ≡ 0
    → count (has_digest new.hashed_token) t ≡ 0
    → is_replaced new ≡ false
    → (new.family_id ≡ new.jti) ⊎ (0 < count (in_family new.family_id) t)
    → count (live_in new.family_id) t ≡ 0
    → IsSound t
    → IsSound (new ∷ t)
unfolding count
insert-IsSound new t jti digest fresh family alone v = record {
  jtis = λ j. ground (arith, v.jtis j);
  digests = λ h. ground (arith, v.digests h);
  one_live = λ f. ground (arith, v.one_live f);
  rooted = λ f e. ground (arith, v.rooted f);
  replaced_dead = ground (arith, v.replaced_dead);
}

active_row :
    (h : ℕ) (now : DateTime) (t : Table) (old : Row)
    → select_active h now t ≡ some old
    → (is_live old ≡ true) × (has_digest h old ≡ true) × (0 < count (in_family old.family_id) t)
unfolding select_active
active_row h now t old e =
    let p : Row → Bool = λ r. r.hashed_token == h && is_live r && ltb_ℤ now r.expires_at in
    let holds : p old ≡ true = first_holds p t e in
    (
      ground (arith, holds),
      ground (arith, holds),
      count-pos_of_first p (in_family old.family_id) t e (==_refl _),
    )

count_family_marked :
    (f : Uuid) (now : DateTime) (new old : Uuid) (t : Table)
    → count (in_family f) (mark_replaced now new old t) ≡ count (in_family f) t
unfolding mark_replaced
count_family_marked f now new old t =
    count-map_stable (in_family f) (replace_if now new old) (λ r. ground arith) t

-- The family of a token that is replaced has no live row left.
mark_replaced_alone :
    (h : ℕ) (now : DateTime) (new : Uuid) (t : Table) (old : Row)
    → IsSound t
    → select_active h now t ≡ some old
    → count (live_in old.family_id) (mark_replaced now new old.jti t) ≡ 0
unfolding select_active
mark_replaced_alone h now new t old v e = omega (
  arith,
  v.one_live old.family_id,
  count-mark_replaced _ (in_family old.family_id) now new old t (λ r. ground arith) e (==_refl _)
      (active_row h now t old e).0,
)

rotated-IsSound :
    (new : Row) (h : ℕ) (now : DateTime) (t : Table) (old : Row)
    → new.family_id ≡ old.family_id
    → is_replaced new ≡ false
    → select_active h now t ≡ some old
    → count (has_jti new.jti) (mark_replaced now new.jti old.jti t) ≡ 0
    → count (has_digest new.hashed_token) (mark_replaced now new.jti old.jti t) ≡ 0
    → IsSound t
    → IsSound (new ∷ mark_replaced now new.jti old.jti t)
rotated-IsSound new h now t old same fresh e jti digest v =
    insert-IsSound new (mark_replaced now new.jti old.jti t) jti digest fresh
      (inr (rw (same, count_family) (active_row h now t old e).2))
      (rw same (mark_replaced_alone h now new.jti t old v e))
      (mark_replaced-IsSound now new.jti old.jti t v)
  where
    count_family :
        count (in_family old.family_id) (mark_replaced now new.jti old.jti t)
        ≡ count (in_family old.family_id) t
    count_family = count_family_marked old.family_id now new.jti old.jti t

-- Whatever `rotate` meets and answers, a table that keeps the rules keeps them: identifiers and
-- digests stay unique, every family still holds its root and one live token at most, and a
-- replaced token is never live.
pub rotate-IsSound :
    (lib : Libraries) (io : Outcomes) (raw : Text) (now : DateTime) (ttl : ℤ) (t : Table)
    → IsSound t
    → IsSound (rotate lib io raw now ttl t).0
rotate-IsSound lib io raw now ttl t v = keep (rotate-Effect lib io raw now t ttl)
  where
    keep : {u : Table} → Effect lib io raw now t u → IsSound u
    keep (unchanged e) = rw e v
    keep (revoked r found e) = rw e (revoke_family-IsSound now r.family_id t v)
    keep (rotated old token until active e jti digest) = rw e (
        rotated-IsSound (successor lib io old token now until) (hash_refresh_token lib raw) now t
          old refl refl active jti digest v)

-- ===== src/Auth/Refresh/Replay.antt =====
-- Replay detection and confinement: what `rotate` does with a token that is no longer active, and
-- which rows it can never touch. gateway/src/auth/refresh.rs.
use rust_web_fullstack.Prelude.{
  ℕ, ◌≤◌, ◌<◌, true, ◌&&◌, Text, none, some, [], ◌∷◌, ok, ◌≡◌, refl, arith,
}
use rust_web_fullstack.Prelude.Int.{ℤ, pos, ltb_ℤ}
use rust_web_fullstack.Domain.{Uuid, DateTime}
use rust_web_fullstack.Auth.Store.{
  Row, Table, is_live, select_active, select_any, mark_replaced, replace_if, revoke_if,
  revoke_family,
}
use rust_web_fullstack.Auth.Store.Counts.{
  count, has_digest, in_family, count-map_stable, count-map-eq-zero, first_holds,
  count-mark_replaced, count-pos_of_first, count-le-and,
}
use rust_web_fullstack.Auth.Refresh.{Libraries, Outcomes, committed, rotate, hash_refresh_token}
use rust_web_fullstack.Auth.Refresh.Integrity.{live_in}

-- The database carries out each statement of the replay branch and the commit.
abbrev pub IsUp : Outcomes → Type 0
IsUp io =
    (io.begins ≡ true)
    × (io.reads ≡ true)
    × (io.reads_any ≡ true)
    × (io.revokes ≡ true)
    × (io.commits ≡ committed)

pub revoke_family_dead :
    (now : DateTime) (f : Uuid) (t : Table) → count (live_in f) (revoke_family now f t) ≡ 0
unfolding revoke_family
revoke_family_dead now f t =
    count-map-eq-zero (live_in f) (revoke_if (in_family f) now) (λ r. ground arith) t

-- A token that the table knows but that is revoked or expired is refused with no error, and the
-- table that is committed is the old one with every live row of that token's family revoked, so
-- that no row of the family is live. It is assumed that the lifetime is positive and that the
-- database carries out each statement.
pub rotate_replay :
    (lib : Libraries) (io : Outcomes) (raw : Text) (now : DateTime) (ttl : ℤ) (t : Table) (r : Row)
    → IsUp io
    → ltb_ℤ (pos 0) ttl ≡ true
    → select_active (hash_refresh_token lib raw) now t ≡ none
    → select_any (hash_refresh_token lib raw) t ≡ some r
    → (rotate lib io raw now ttl t ≡ (revoke_family now r.family_id t, ok none))
      × (count (live_in r.family_id) (rotate lib io raw now ttl t).0 ≡ 0)
unfolding rotate
rotate_replay lib io raw now ttl t r up positive missing found =
    let refused : rotate lib io raw now ttl t ≡ (revoke_family now r.family_id t, ok none) =
      ground arith in
    (refused, rw refused (revoke_family_dead now r.family_id t))

pub select_active_gone :
    (h : ℕ) (now : DateTime) (t : Table)
    → count (λ r. has_digest h r && is_live r) t ≡ 0
    → select_active h now t ≡ none
unfolding select_active count
select_active_gone h now [] e = refl
select_active_gone h now (r ∷ t) e = ground (arith, select_active_gone h now t)

pub active_digest :
    (h : ℕ) (now : DateTime) (t : Table) (old : Row)
    → select_active h now t ≡ some old
    → (is_live old ≡ true) × (has_digest h old ≡ true) × (0 < count (has_digest h) t)
unfolding select_active
active_digest h now t old e =
    let holds = first_holds _ t e in
    (
      ground (arith, holds),
      ground (arith, holds),
      count-pos_of_first _ (has_digest h) t e (ground (arith, holds)),
    )

-- Marking an active row leaves no active row under its digest.
pub marked_gone :
    (h : ℕ) (now : DateTime) (new : Uuid) (t : Table) (old : Row)
    → select_active h now t ≡ some old
    → count (has_digest h) t ≤ 1
    → count (λ r. has_digest h r && is_live r) (mark_replaced now new old.jti t) ≡ 0
unfolding select_active
marked_gone h now new t old e one =
    let holds = active_digest h now t old e in
    omega (
      arith,
      count-le-and (has_digest h) is_live t,
      count-mark_replaced _ (has_digest h) now new old t (λ r. ground arith) e (holds.1) (holds.0),
    )

pub count_digest_marked :
    (h : ℕ) (now : DateTime) (new j : Uuid) (t : Table)
    → count (has_digest h) (mark_replaced now new j t) ≡ count (has_digest h) t
unfolding mark_replaced
count_digest_marked h now new j t =
    count-map_stable (has_digest h) (replace_if now new j) (λ r. ground arith) t

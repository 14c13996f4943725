-- ===== src/Auth/History/Spent.antt =====
-- Which refresh tokens stay unusable, whatever requests follow: gateway/src/auth/handlers.rs over
-- gateway/src/auth/refresh.rs.
use rust_web_fullstack.Prelude.{
  refl, ==_refl, ℕ, ◌<◌, ◌≤◌, true, false, ◌&&◌, Text, Option, some, List, [], ◌∷◌, map, ◌≡◌, arith,
}
use rust_web_fullstack.Prelude.Int.{ℤ}
use rust_web_fullstack.Domain.{Uuid, DateTime, as_uuid}
use rust_web_fullstack.Gateway.State.{GatewayState}
use rust_web_fullstack.Auth.Store.{
  select_active, first, Row, Table, is_live, replace_if, revoke_if, revoke_family, revoke_subject,
  mark_replaced, select_any,
}
use rust_web_fullstack.Auth.Store.Counts.{
  count, has_digest, of_subject, in_family, count-map_stable, count-map-le, count-le-and,
  count-pos_of_first, first_holds,
}
use rust_web_fullstack.Auth.Refresh.{Libraries, Outcomes, rotate}
use rust_web_fullstack.Auth.Refresh.Effects.{Effect, unchanged, revoked, rotated, rotate-Effect}
use rust_web_fullstack.Auth.Refresh.Rotation.{successor}
use rust_web_fullstack.Auth.Refresh.Replay.{marked_gone, active_digest, count_digest_marked}
use rust_web_fullstack.Auth.Jwt.{JwtLibrary}
use rust_web_fullstack.Auth.Session.{SessionApi}
use rust_web_fullstack.Auth.Handlers.{LoginRequest, LoginOutcomes, refresh_handler, logout_handler}
use rust_web_fullstack.Auth.Handlers.Issue.{root}
use rust_web_fullstack.Auth.Handlers.Rollback.{Left, same, grown, login_handler-Left}
use rust_web_fullstack.Auth.History.{Call, login, refresh, logout, serve, serve_all}

-- The table knows the digest, and no row of it is live.
pub record IsSpent (h : ℕ) (t : Table) : Type 0 where
  pub known : 0 < count (has_digest h) t
  pub dead : count (λ r. has_digest h r && is_live r) t ≡ 0

map-IsSpent :
    (h : ℕ) (f : Row → Row)
    → ((r : Row) → has_digest h (f r) ≡ has_digest h r)
    → ((r : Row) → is_live (f r) ≡ true → is_live r ≡ true)
    → (t : Table) → IsSpent h t
    → IsSpent h (map f t)
map-IsSpent h f keeps no_revival t v = record {
  known = rw (count-map_stable (has_digest h) f keeps t) v.known;
  dead = omega (
    arith,
    v.dead,
    count-map-le (λ r. has_digest h r && is_live r) f (λ r e. ground (arith, keeps r, no_revival r))
        t,
  );
}

-- A row under a digest that the table does not know leaves the spent ones alone.
insert-IsSpent :
    (h : ℕ) (new : Row) (t : Table)
    → count (has_digest new.hashed_token) t ≡ 0
    → IsSpent h t
    → IsSpent h (new ∷ t)
unfolding count
insert-IsSpent h new t fresh v =
    let differs : has_digest h new ≡ false = ground (arith, v.known) in
    record { known = ground (arith, v.known); dead = ground (arith, v.dead) }

rotated-IsSpent :
    (h : ℕ) (new : Row) (now : DateTime) (old : Uuid) (t : Table)
    → count (has_digest new.hashed_token) (mark_replaced now new.jti old t) ≡ 0
    → IsSpent h t
    → IsSpent h (new ∷ mark_replaced now new.jti old t)
unfolding mark_replaced
rotated-IsSpent h new now old t fresh v =
    insert-IsSpent h new _ fresh
      (map-IsSpent h (replace_if now new.jti old) (λ r. ground arith) (λ r e. ground arith) t v)

rotate-IsSpent :
    (h : ℕ) (lib : Libraries) (io : Outcomes) (raw : Text) (now : DateTime) (ttl : ℤ) (t : Table)
    → IsSpent h t
    → IsSpent h (rotate lib io raw now ttl t).0
unfolding revoke_family
rotate-IsSpent h lib io raw now ttl t v = kept (rotate-Effect lib io raw now t ttl)
  where
    kept : {u : Table} → Effect lib io raw now t u → IsSpent h u
    kept (unchanged e) = rw e v
    kept (revoked r found e) = rw e (
        map-IsSpent h (revoke_if (in_family r.family_id) now) (λ x. ground arith)
          (λ x p. ground arith) t v)
    kept (rotated old token until active e jti digest) =
        rw e (rotated-IsSpent h (successor lib io old token now until) now old.jti t digest v)

-- The token that a rotation replaces is spent.
pub marked-IsSpent :
    (h : ℕ) (now : DateTime) (t : Table) (old new : Row)
    → select_active h now t ≡ some old
    → count (has_digest h) t ≤ 1
    → count (has_digest new.hashed_token) (mark_replaced now new.jti old.jti t) ≡ 0
    → IsSpent h (new ∷ mark_replaced now new.jti old.jti t)
marked-IsSpent h now t old new active one fresh = insert-IsSpent h new _ fresh (record {
  known = rw (count_digest_marked h now new.jti old.jti t) (active_digest h now t old active).2;
  dead = marked_gone h now new.jti t old active one;
})

first_revoked-dead :
    (h : ℕ) (now : DateTime) (subject : Uuid) (t : Table) {r : Row}
    → first (has_digest h) t ≡ some r
    → r.subject ≡ subject
    → count (has_digest h) t ≤ 1
    → count (λ x. has_digest h x && is_live x) (map (revoke_if (of_subject subject) now) t) ≡ 0
unfolding count
first_revoked-dead h now subject [] e own one = refl
first_revoked-dead h now subject (x ∷ t) {r} e own one = ground (
  arith,
  first_revoked-dead h now subject t {r = r},
  ==_refl subject,
  count-le-and (has_digest h) is_live (map (revoke_if (of_subject subject) now) t),
  count-map_stable (has_digest h) (revoke_if (of_subject subject) now) (λ y. ground arith) t,
)

-- A token of a subject that is revoked is spent.
pub revoke_subject-spends :
    (h : ℕ) (now : DateTime) (t : Table) (r : Row)
    → select_any h t ≡ some r
    → count (has_digest h) t ≤ 1
    → IsSpent h (revoke_subject now r.subject t)
unfolding revoke_subject select_any
revoke_subject-spends h now t r e one = record {
  known =
      rw
        (count-map_stable (has_digest h) (revoke_if (of_subject r.subject) now) (λ y. ground arith)
          t)
        (count-pos_of_first (has_digest h) (has_digest h) t e (first_holds (has_digest h) t e));
  dead = first_revoked-dead h now r.subject t e refl one;
}

module _ {S : Type 0} (lib : Libraries) (jwts : JwtLibrary) (parse_uuid : Text → Option Uuid)
    (api : SessionApi S) (state : GatewayState) where
  Left-IsSpent :
      (h : ℕ) (io : LoginOutcomes) (request : LoginRequest) (t : Table) (s : S) {u : Table}
      → IsSpent h t
      → Left lib jwts parse_uuid api io state request t s u
      → IsSpent h u
  Left-IsSpent h io request t s v (same e) = rw e v
  Left-IsSpent h io request t s v (grown user raw expires_at e jti digest) =
      rw e (insert-IsSpent h (root lib io user raw expires_at) t digest v)

  revoke_subject-IsSpent :
      (h : ℕ) (now : DateTime) (subject : Uuid) (t : Table)
      → IsSpent h t
      → IsSpent h (revoke_subject now subject t)
  unfolding revoke_subject
  revoke_subject-IsSpent h now subject t v =
      map-IsSpent h (revoke_if (of_subject subject) now) (λ x. ground arith) (λ x p. ground arith) t
        v

  serve-IsSpent :
      (h : ℕ) (c : Call S) (t : Table)
      → IsSpent h t
      → IsSpent h (serve lib jwts parse_uuid api state c t)
  unfolding serve refresh_handler logout_handler
  serve-IsSpent h (login io request s) t v =
      Left-IsSpent h io request t s v
        (login_handler-Left lib jwts parse_uuid api io state request t s)
  serve-IsSpent h (refresh io jwt_now jwt_jti now refresh_token) t v =
      ground (arith, rotate-IsSpent h lib io refresh_token now state.refresh_token_ttl_secs t v)
  serve-IsSpent h (logout up now claims) t v =
      ground (arith, revoke_subject-IsSpent h now (as_uuid claims.sub) t v)

  pub serve_all-IsSpent :
      (h : ℕ) (cs : List (Call S)) (t : Table)
      → IsSpent h t
      → IsSpent h (serve_all lib jwts parse_uuid api state cs t)
  unfolding serve_all
  serve_all-IsSpent h [] t v = v
  serve_all-IsSpent h (c ∷ cs) t v =
      serve_all-IsSpent h cs (serve lib jwts parse_uuid api state c t) (serve-IsSpent h c t v)

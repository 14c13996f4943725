-- ===== src/Auth/Handlers/Rollback.antt =====
-- What a login leaves in the table of refresh tokens: gateway/src/auth/handlers.rs,
-- `login_handler`.
use rust_web_fullstack.Prelude.{
  Result, ok, String, Text, Option, none, some, ◌∷◌, err, ◌≡◌, refl, inl, inr, arith, Result-cases,
  Bool-cases, Stop,
}
use rust_web_fullstack.Domain.{Uuid, DateTime, UserId}
use rust_web_fullstack.Gateway.State.{GatewayState}
use rust_web_fullstack.Auth.Error.{AppError}
use rust_web_fullstack.Auth.Store.{Row, Table, is_live, delete}
use rust_web_fullstack.Auth.Store.Counts.{
  count, has_jti, has_digest, in_family, delete_absent, count-le-and,
}
use rust_web_fullstack.Auth.Refresh.{lost_answer, Libraries, hash_refresh_token}
use rust_web_fullstack.Auth.Refresh.Integrity.{IsSound, live_in, insert-IsSound}
use rust_web_fullstack.Auth.Jwt.{JwtLibrary}
use rust_web_fullstack.Auth.Session.{SessionApi}
use rust_web_fullstack.Auth.Handlers.{
  LoginRequest, LoginOutcomes, authenticate, issue, remove_unissued_refresh_token, attach, conclude,
  persist, admitted, login_handler,
}
use rust_web_fullstack.Auth.Handlers.Issue.{root, issue_ok, issue_err}

module _ {S : Type 0} (lib : Libraries) (jwts : JwtLibrary) (parse_uuid : Text → Option Uuid)
    (api : SessionApi S) (io : LoginOutcomes) (state : GatewayState) (request : LoginRequest)
    (t : Table) (s : S) where
  -- Which tables a login can leave: as it was, or with the root of a new family.
  pub data Left (u : Table) : Type 0 where
    same : u ≡ t → Left u
    grown :
        (user : UserId) (raw : Text) (expires_at : DateTime)
        → u ≡ root lib io user raw expires_at ∷ t
        → count (has_jti io.refresh_jti) t ≡ 0
        → count (has_digest (hash_refresh_token lib raw)) t ≡ 0
        → Left u

  delete_root : (r : Row) → count (has_jti r.jti) t ≡ 0 → delete r.jti (r ∷ t) ≡ t
  unfolding delete
  delete_root r e = ground (arith, delete_absent r.jti t e)

  conclude-Left :
      (token raw : Text) (u : Table) (a : S × Option String)
      → Left u
      → (delete io.refresh_jti u ≡ t)
      → Left (conclude lib jwts parse_uuid api io request token u raw a).0.0
  unfolding conclude remove_unissued_refresh_token
  conclude-Left token raw u (x, none) l gone = l
  conclude-Left token raw u (x, some c) l gone = elim (Bool-cases io.deletes) [
    | inl up ↦ simp up (same gone)
    | inr down ↦ simp down l
  ]

  persist-Left :
      (token : Text) (user : UserId) (w : Table × Result Text (Stop AppError))
      → issue lib jwts parse_uuid io state user t ≡ w
      → Left (persist lib jwts parse_uuid api io request token s w).0.0
  unfolding persist
  persist-Left token user (u, err x) made =
      elim (issue_err lib jwts parse_uuid io state user t u x made) [
        | inl kept ↦ same kept
        | inr (lost, (raw, (expires_at, later, table, jti, digest))) ↦
            grown user raw expires_at table jti digest
      ]
  persist-Left token user (u, ok raw) made =
      let (expires_at, later, table, jti, digest) =
        issue_ok lib jwts parse_uuid io state user t u raw made in
      conclude-Left token raw u (attach lib jwts parse_uuid api request.user_id s)
        (grown user raw expires_at table jti digest)
        (rw table (delete_root (root lib io user raw expires_at) jti))

  -- What an error leaves: the table, but for a row whose INSERT lost its answer.
  pub data RolledBack (v : Table) : Type 0 where
    unchanged : v ≡ t → RolledBack v
    unanswered :
        (user : UserId) (raw : Text) (expires_at : DateTime)
        → io.inserts ≡ lost_answer
        → v ≡ root lib io user raw expires_at ∷ t
        → RolledBack v

-- A family that has no root has no row, so none that is live.
new_family_dead :
    (f : Uuid) (t : Table) → IsSound t → count (has_jti f) t ≡ 0 → count (live_in f) t ≡ 0
new_family_dead f t v e = omega (arith, v.rooted f e, count-le-and (in_family f) is_live t)

Left-IsSound :
    {S : Type 0} (lib : Libraries) (jwts : JwtLibrary) (parse_uuid : Text → Option Uuid)
    (api : SessionApi S) (io : LoginOutcomes) (state : GatewayState) (request : LoginRequest)
    (t : Table) (s : S) {u : Table}
    → IsSound t
    → Left lib jwts parse_uuid api io state request t s u
    → IsSound u
Left-IsSound lib jwts parse_uuid api io state request t s v (same e) = rw e v
Left-IsSound lib jwts parse_uuid api io state request t s v
      (grown user raw expires_at e jti digest) =
    rw e (
      insert-IsSound (root lib io user raw expires_at) t jti digest refl (inl refl)
        (new_family_dead io.refresh_jti t v jti) v)

pub login_handler-Left :
    {S : Type 0} (lib : Libraries) (jwts : JwtLibrary) (parse_uuid : Text → Option Uuid)
    (api : SessionApi S) (io : LoginOutcomes) (state : GatewayState) (request : LoginRequest)
    (t : Table) (s : S)
    → Left lib jwts parse_uuid api io state request t s
        (login_handler lib jwts parse_uuid api io state request (t, s)).0.0
unfolding login_handler
login_handler-Left lib jwts parse_uuid api io state request t s =
    elim (Result-cases (authenticate lib jwts parse_uuid io state request)) [
      | inr (y, refused) ↦ rw (refused, admitted) (same refl)
      | inl ((user, token), passed) ↦
          rw (passed, admitted)
            (persist-Left lib jwts parse_uuid api io state request t s token user
              (issue lib jwts parse_uuid io state user t) refl)
    ]

-- Whatever a login meets and answers, the table of refresh tokens keeps its rules.
pub login_handler-IsSound :
    {S : Type 0} (lib : Libraries) (jwts : JwtLibrary) (parse_uuid : Text → Option Uuid)
    (api : SessionApi S) (io : LoginOutcomes) (state : GatewayState) (request : LoginRequest)
    (t : Table) (s : S)
    → IsSound t
    → IsSound (login_handler lib jwts parse_uuid api io state request (t, s)).0.0
login_handler-IsSound lib jwts parse_uuid api io state request t s v =
    Left-IsSound lib jwts parse_uuid api io state request t s v
      (login_handler-Left lib jwts parse_uuid api io state request t s)

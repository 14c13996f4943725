-- ===== src/Auth/Refresh/Effects.antt =====
-- What one call of `rotate` may do to the table: gateway/src/auth/refresh.rs.
use rust_web_fullstack.Prelude.{
  Text, Option, some, ◌∷◌, Result, ok, err, Stop, ◌≡◌, refl, inl, inr, arith, Option-cases,
  Bool-cases,
}
use rust_web_fullstack.Prelude.Int.{ℤ, pos, ltb_ℤ}
use rust_web_fullstack.Domain.{DateTime, as_uuid, try_from}
use rust_web_fullstack.Auth.Store.{
  Row, Table, RefreshError, select_active, select_any, mark_replaced, revoke_family,
}
use rust_web_fullstack.Auth.Store.Counts.{count, has_jti, has_digest, insert_fresh}
use rust_web_fullstack.Auth.Refresh.{
  Libraries, RotationResult, Outcomes, Commit, committed, lost_answer, rejected, replayed, replaced,
  in_transaction, finish, rotate, hash_refresh_token,
}
use rust_web_fullstack.Auth.Refresh.Rotation.{successor}

-- What one call may do to the table.
pub data Effect (lib : Libraries) (io : Outcomes) (raw : Text) (now : DateTime) (t u : Table)
    : Type 0 where
  unchanged : u ≡ t → Effect lib io raw now t u
  revoked :
      (r : Row)
      → select_any (hash_refresh_token lib raw) t ≡ some r
      → u ≡ revoke_family now r.family_id t
      → Effect lib io raw now t u
  rotated :
      (old : Row) (token : Text) (until : DateTime)
      → select_active (hash_refresh_token lib raw) now t ≡ some old
      → u ≡ successor lib io old token now until ∷ mark_replaced now io.new_v4 old.jti t
      → count (has_jti io.new_v4) (mark_replaced now io.new_v4 old.jti t) ≡ 0
      → count (has_digest (hash_refresh_token lib token)) (mark_replaced now io.new_v4 old.jti t)
        ≡ 0
      → Effect lib io raw now t u

module _ (lib : Libraries) (io : Outcomes) (raw : Text) (now : DateTime) (t : Table) where
  replayed-Effect :
      {u : Table} {r : Option RotationResult}
      → replayed lib io (hash_refresh_token lib raw) now t ≡ ok (u, r)
      → Effect lib io raw now t u
  unfolding replayed
  replayed-Effect e = elim (Option-cases (select_any (hash_refresh_token lib raw) t)) [
    | inl missing ↦ unchanged (ground arith)
    | inr (r, found) ↦ revoked r found (ground arith)
  ]

  replaced-Effect :
      (old : Row) (ttl : ℤ) {u : Table} {r : Option RotationResult}
      → select_active (hash_refresh_token lib raw) now t ≡ some old
      → replaced lib io old now ttl t ≡ ok (u, r)
      → Effect lib io raw now t u
  unfolding replaced try_from as_uuid hash_refresh_token
  replaced-Effect old ttl {u} active e = elim (Option-cases (lib.add_seconds now ttl)) [
    | inl past ↦ ground arith
    | inr (until, later) ↦ elim (Option-cases io.random_bytes) [
      | inl none_left ↦ ground arith
      | inr (bytes, random) ↦
          let token = lib.base64 bytes in
          let fresh =
            insert_fresh io.inserts (successor lib io old token now until)
              (mark_replaced now io.new_v4 old.jti t) {u = u} in
          rotated old token until active (ground (arith, fresh)) (ground (arith, fresh))
            (ground (arith, fresh))
    ]
  ]

  in_transaction-Effect :
      (ttl : ℤ) {u : Table} {r : Option RotationResult}
      → in_transaction lib io raw now ttl t ≡ ok (u, r)
      → Effect lib io raw now t u
  unfolding in_transaction
  in_transaction-Effect ttl {u} {r} e =
      elim (Option-cases (select_active (hash_refresh_token lib raw) now t)) [
        | inl missing ↦ replayed-Effect {r = r} (ground arith)
        | inr (old, active) ↦ replaced-Effect old ttl {r = r} active (ground arith)
      ]

  finish-Effect :
      (c : Commit) (m : Result (Table × Option RotationResult) (Stop RefreshError))
      → ((u : Table) (r : Option RotationResult) → m ≡ ok (u, r) → Effect lib io raw now t u)
      → Effect lib io raw now t (finish lib c t m).0
  unfolding finish
  finish-Effect committed (ok (u, r)) h = h u r refl
  finish-Effect lost_answer (ok (u, r)) h = h u r refl
  finish-Effect rejected (ok (u, r)) h = unchanged refl
  finish-Effect c (err x) h = unchanged refl

  pub rotate-Effect : (ttl : ℤ) → Effect lib io raw now t (rotate lib io raw now ttl t).0
  unfolding rotate
  rotate-Effect ttl = elim (Bool-cases (ltb_ℤ (pos 0) ttl)) [
    | inr bad ↦ rw bad (unchanged refl)
    | inl good ↦ rw good (finish-Effect io.commits _ (λ u r. in_transaction-Effect ttl {r = r}))
  ]

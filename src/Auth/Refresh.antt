-- ===== src/Auth/Refresh.antt =====
-- gateway/src/auth/refresh.rs: the token generator and `rotate`. One call of `rotate` is one step:
-- its transaction holds the row lock of FOR UPDATE from the read to the commit. What it meets
-- outside (random bytes, a new UUID, the outcome of each statement) is the argument `Outcomes`;
-- SHA-256, base64 and chrono's addition are the fields of `Libraries`.
pub mod Rotation
pub mod Replay
pub mod Integrity
pub mod Effects
pub mod Isolation
pub mod Renewal
pub mod View
use rust_web_fullstack.Prelude.{
  ℕ, Bool, Text, Option, none, some, List, Result, ok, err, ◌>>=◌, ◌>>◌, map_err, ok_or,
  if◌then◌else◌, Stop, failed, panicked, not,
}
use rust_web_fullstack.Prelude.Int.{ℤ, pos, ltb_ℤ}
use rust_web_fullstack.Domain.{Uuid, DateTime, UserId, as_uuid, try_from}
use rust_web_fullstack.Auth.Store.{
  Row, Table, RefreshError, os_rng, sqlx, invalid_ttl, user_id, query, select_active, select_any,
  revoke_family, mark_replaced, insert,
}

pub record Libraries : Type 0 where
  -- The digest of the token's bytes, as a number.
  pub sha256 : Text → ℕ
  -- URL_SAFE_NO_PAD of 32 bytes.
  pub base64 : List ℕ → Text
  -- `t + chrono::Duration::seconds(n)`; `none` is a panic.
  pub add_seconds : DateTime → ℤ → Option DateTime

pub record RotationResult : Type 0 where
  pub new_raw_token : Text
  pub subject : UserId

-- How COMMIT ends. A commit that reports an error may have taken effect or not.
pub data Commit : Type 0 where
  committed lost_answer rejected : Commit

pub record Outcomes : Type 0 where
  pub begins : Bool
  pub reads : Bool
  pub reads_any : Bool
  pub revokes : Bool
  pub random_bytes : Option (List ℕ)
  pub new_v4 : Uuid
  pub marks : Bool
  pub inserts : Bool
  pub commits : Commit

abbrev pub lift {ℓ} : {A : Type ℓ} → Result A RefreshError → Result A (Stop RefreshError)
lift r = map_err failed r

module _ (lib : Libraries) where
  unfoldable pub generate_raw_refresh_token :
      Option (List ℕ) → Uuid → Result (Text × Uuid) RefreshError
  generate_raw_refresh_token random jti = do bytes ← ok_or os_rng random; ok (lib.base64 bytes, jti)

  unfoldable pub hash_refresh_token : Text → ℕ
  hash_refresh_token raw = lib.sha256 raw

  -- The branch of a token that is not active: its family, if it has one, is revoked.
  replayed :
      Outcomes → ℕ → DateTime → Table → Result (Table × Option RotationResult) (Stop RefreshError)
  replayed io h now t = do
    found ← lift (query io.reads_any (select_any h t))
    revoked ← elim found [
      | none ↦ ok t
      | some r ↦ lift (query io.revokes (revoke_family now r.family_id t))
    ]
    ok (revoked, none)

  -- The branch of an active token.
  replaced :
      Outcomes
      → Row
      → DateTime
      → ℤ
      → Table
      → Result (Table × Option RotationResult) (Stop RefreshError)
  unfolding generate_raw_refresh_token hash_refresh_token
  replaced io old now ttl t = do
    owner ← lift (map_err user_id (try_from old.subject))
    token ← lift (generate_raw_refresh_token io.random_bytes io.new_v4)
    until ← ok_or panicked (lib.add_seconds now ttl)
    marked ← lift (query io.marks (mark_replaced now (token.1) old.jti t))
    grown ← lift (
        insert io.inserts
          (record {
            jti = token.1;
            family_id = old.family_id;
            subject = as_uuid owner;
            hashed_token = hash_refresh_token (token.0);
            expires_at = until;
            revoked_at = none;
            replaced_by = none;
            created_at = now;
          })
          marked)
    ok (grown, some (record { new_raw_token = token.0; subject = owner }))

  in_transaction :
      Outcomes
      → Text
      → DateTime
      → ℤ
      → Table
      → Result (Table × Option RotationResult) (Stop RefreshError)
  unfolding replayed replaced hash_refresh_token
  in_transaction io raw now ttl t = do
    lift (query io.begins tt)
    active ← lift (query io.reads (select_active (hash_refresh_token raw) now t))
    elim active [
      | none ↦ replayed io (hash_refresh_token raw) now t
      | some old ↦ replaced io old now ttl t
    ]

  -- `tx.commit()`, or the rollback of a transaction that an early return drops.
  pub finish :
      Commit
      → Table
      → Result (Table × Option RotationResult) (Stop RefreshError)
      → Table × Result (Option RotationResult) (Stop RefreshError)
  finish c t (err e) = (t, err e)
  finish committed t (ok (u, r)) = (u, ok r)
  finish lost_answer t (ok (u, r)) = (u, err (failed sqlx))
  finish rejected t (ok (u, r)) = (t, err (failed sqlx))

  unfoldable pub rotate :
      Outcomes
      → Text
      → DateTime
      → ℤ
      → Table
      → Table × Result (Option RotationResult) (Stop RefreshError)
  unfolding in_transaction finish
  rotate io raw now ttl t =
      if not (ltb_ℤ (pos 0) ttl)
      then (t, err (failed invalid_ttl))
      else finish io.commits t (in_transaction io raw now ttl t)

-- ===== src/Auth/Handlers/Issue.antt =====
-- What a login writes to the table: gateway/src/auth/handlers.rs, the INSERT of `login_handler`.
use rust_web_fullstack.Prelude.{
  ap, refl, sym, ◌∙◌, Result, Stop, true, Text, Option, none, some, ◌∷◌, ok, err, ◌≡◌, ◌⊎◌, inl,
  inr, arith, Option-cases, Result-cases,
}
use rust_web_fullstack.Domain.{Uuid, DateTime, UserId, as_uuid}
use rust_web_fullstack.Gateway.State.{GatewayState}
use rust_web_fullstack.Auth.Error.{AppError}
use rust_web_fullstack.Auth.Store.{RefreshError, insert, Row, Table}
use rust_web_fullstack.Auth.Store.Counts.{count, has_jti, has_digest, insert_fresh}
use rust_web_fullstack.Auth.Refresh.{
  Commit, committed, lost_answer, rejected, Libraries, hash_refresh_token,
  generate_raw_refresh_token,
}
use rust_web_fullstack.Auth.Jwt.{JwtLibrary}
use rust_web_fullstack.Auth.Handlers.{LoginOutcomes, issue, new_row, settle_insert, place}

-- The row of a new family.
abbrev pub root : Libraries → LoginOutcomes → UserId → Text → DateTime → Row
root lib io user raw expires_at = record {
  jti = io.refresh_jti;
  family_id = io.refresh_jti;
  subject = as_uuid user;
  hashed_token = hash_refresh_token lib raw;
  expires_at = expires_at;
  revoked_at = none;
  replaced_by = none;
  created_at = io.now;
}

module _ (lib : Libraries) (jwts : JwtLibrary) (parse_uuid : Text → Option Uuid)
    (io : LoginOutcomes) (state : GatewayState) where
  -- The table with one row more, the root of a new family.
  abbrev pub Grown : UserId → Text → Table → Table → Type 0
  Grown user raw t u =
      (expires_at : DateTime) × (lib.add_seconds io.now state.refresh_token_ttl_secs
        ≡ some expires_at)
      × (u ≡ root lib io user raw expires_at ∷ t)
      × (count (has_jti io.refresh_jti) t ≡ 0)
      × (count (has_digest (hash_refresh_token lib raw)) t ≡ 0)

  new_row_ok :
      (user : UserId) (row : Row) (raw : Text)
      → new_row lib jwts parse_uuid io state user ≡ ok (row, raw)
      → (expires_at : DateTime) × (lib.add_seconds io.now state.refresh_token_ttl_secs
          ≡ some expires_at)
        × (row ≡ root lib io user raw expires_at)
  unfolding new_row generate_raw_refresh_token
  new_row_ok user row raw e =
      elim (Option-cases (lib.add_seconds io.now state.refresh_token_ttl_secs)) [
        | inl past ↦ ground arith
        | inr (expires_at, later) ↦ (expires_at, later, ground arith)
      ]

  insert-Grown :
      (user : UserId) (t u : Table) (row : Row) (raw : Text)
      → new_row lib jwts parse_uuid io state user ≡ ok (row, raw)
      → insert true row t ≡ ok u
      → Grown user raw t u
  insert-Grown user t u row raw made inserted =
      let (expires_at, later, same) = new_row_ok user row raw made in
      let fresh =
        insert_fresh true (root lib io user raw expires_at) t {u = u} (rw same at inserted) in
      (expires_at, later, ground (arith, fresh), ground (arith, fresh), ground (arith, fresh))

  settled_ok :
      (t u : Table) (raw : Text) (c : Commit) (r : Result Table RefreshError)
      → (settle_insert lib jwts parse_uuid c t r).0 ≡ u
      → (settle_insert lib jwts parse_uuid c t r).1 ≡ ok tt
      → r ≡ ok u
  unfolding settle_insert
  settled_ok t u raw c (err e) same done = absurd (ground arith)
  settled_ok t u raw committed (ok v) same done = ap ok same
  settled_ok t u raw lost_answer (ok v) same done = absurd (ground arith)
  settled_ok t u raw rejected (ok v) same done = absurd (ground arith)

  settled_err :
      (t : Table) (c : Commit) (r : Result Table RefreshError) (e : RefreshError)
      → (settle_insert lib jwts parse_uuid c t r).1 ≡ err e
      → ((settle_insert lib jwts parse_uuid c t r).0 ≡ t)
        ⊎ ((c ≡ lost_answer) × (r ≡ ok (settle_insert lib jwts parse_uuid c t r).0))
  unfolding settle_insert
  settled_err t c (err x) e h = inl refl
  settled_err t committed (ok v) e h = absurd (ground arith)
  settled_err t lost_answer (ok v) e h = inr (refl, refl)
  settled_err t rejected (ok v) e h = inl refl

  place_ok :
      (user : UserId) (t u : Table) (raw : Text) (r : Result (Row × Text) (Stop AppError))
      → new_row lib jwts parse_uuid io state user ≡ r
      → place lib jwts parse_uuid io t r ≡ (u, ok raw)
      → Grown user raw t u
  unfolding place
  place_ok user t u raw (err x) made e = absurd (ground arith)
  place_ok user t u raw (ok (row, raw')) made e =
      let settled = settle_insert lib jwts parse_uuid io.inserts t (insert true row t) in
      elim (Result-cases settled.1) [
        | inr (x, refused) ↦ absurd (ground (arith, refused))
        | inl (done, good) ↦
            let same : raw' ≡ raw = ground (arith, good) in
            insert-Grown user t u row raw (rw same at made)
              (settled_ok t u raw io.inserts (insert true row t) (ground arith) (ground arith))
      ]

  place_err :
      (user : UserId) (t u : Table) (x : Stop AppError) (r : Result (Row × Text) (Stop AppError))
      → new_row lib jwts parse_uuid io state user ≡ r
      → place lib jwts parse_uuid io t r ≡ (u, err x)
      → (u ≡ t) ⊎ ((io.inserts ≡ lost_answer) × ((raw : Text) × Grown user raw t u))
  unfolding place
  place_err user t u x (err y) made e = inl (ground arith)
  place_err user t u x (ok (row, raw)) made e =
      let r = insert true row t in
      let settled = settle_insert lib jwts parse_uuid io.inserts t r in
      let same : settled.0 ≡ u = ground arith in
      elim (Result-cases settled.1) [
        | inl (done, good) ↦ absurd (ground (arith, good))
        | inr (y, refused) ↦ elim (settled_err t io.inserts r y refused) [
          | inl kept ↦ inl (sym same ∙ kept)
          | inr (lost, added) ↦
              inr (lost, (raw, insert-Grown user t u row raw made (added ∙ ap ok same)))
        ]
      ]

  -- What a successful insert of a new family has done.
  pub issue_ok :
      (user : UserId) (t u : Table) (raw : Text)
      → issue lib jwts parse_uuid io state user t ≡ (u, ok raw)
      → Grown user raw t u
  unfolding issue
  issue_ok user t u raw e = place_ok user t u raw (new_row lib jwts parse_uuid io state user) refl e

  -- What an error of the insert leaves: its row, where the answer was lost.
  pub issue_err :
      (user : UserId) (t u : Table) (x : Stop AppError)
      → issue lib jwts parse_uuid io state user t ≡ (u, err x)
      → (u ≡ t) ⊎ ((io.inserts ≡ lost_answer) × ((raw : Text) × Grown user raw t u))
  unfolding issue
  issue_err user t u x e = place_err user t u x (new_row lib jwts parse_uuid io state user) refl e

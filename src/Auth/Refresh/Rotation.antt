-- ===== src/Auth/Refresh/Rotation.antt =====
-- What a successful rotation has done: gateway/src/auth/refresh.rs, `rotate`.
use rust_web_fullstack.Prelude.{
  refl, ℕ, true, false, List, any, ◌==◌, ◌||◌, Text, Option, none, some, ◌∷◌, Result, ok, err, Stop,
  ◌≡◌, ◌≢◌, inl, inr, arith, Option-cases, Bool-cases,
}
use rust_web_fullstack.Prelude.Int.{ℤ, pos, ltb_ℤ}
use rust_web_fullstack.Domain.{DateTime, as_uuid, try_from}
use rust_web_fullstack.Auth.Store.{Row, Table, RefreshError, select_active, mark_replaced, insert}
use rust_web_fullstack.Auth.Store.Counts.{count, has_jti, has_digest, insert_fresh}
use rust_web_fullstack.Auth.Refresh.{
  Libraries, RotationResult, Outcomes, Commit, committed, lost_answer, rejected, hash_refresh_token,
  replayed, replaced, in_transaction, finish, rotate, generate_raw_refresh_token,
}

module _ (lib : Libraries) where
  -- The row that a rotation of `old` inserts.
  abbrev pub successor : Outcomes → Row → Text → DateTime → DateTime → Row
  successor io old token now until = record {
    jti = io.new_v4;
    family_id = old.family_id;
    subject = old.subject;
    hashed_token = hash_refresh_token lib token;
    expires_at = until;
    revoked_at = none;
    replaced_by = none;
    created_at = now;
  }

  pub record IsRotated (io : Outcomes) (raw : Text) (now : DateTime) (ttl : ℤ) (t u : Table)
      (r : RotationResult) : Type 0 where
    pub old : Row
    pub until : DateTime
    pub active : select_active (hash_refresh_token lib raw) now t ≡ some old
    pub positive : ltb_ℤ (pos 0) ttl ≡ true
    pub expires : lib.add_seconds now ttl ≡ some until
    pub drawn :
        (bytes : List ℕ) × (io.random_bytes ≡ some bytes) × (r.new_raw_token ≡ lib.base64 bytes)
    pub owner : as_uuid r.subject ≡ old.subject
    pub not_nil : old.subject ≢ 0
    pub table :
        u ≡ successor io old r.new_raw_token now until ∷ mark_replaced now io.new_v4 old.jti t
    pub new_jti : count (has_jti io.new_v4) (mark_replaced now io.new_v4 old.jti t) ≡ 0
    pub new_digest :
        count
          (has_digest (hash_refresh_token lib r.new_raw_token))
          (mark_replaced now io.new_v4 old.jti t)
        ≡ 0

  pub finish_ok :
      (c : Commit) (t : Table) (m : Result (Table × Option RotationResult) (Stop RefreshError))
      {u : Table} {r : Option RotationResult}
      → finish lib c t m ≡ (u, ok r)
      → m ≡ ok (u, r)
  unfolding finish
  finish_ok committed t (ok (v, s)) e = ground arith
  finish_ok lost_answer t (ok (v, s)) e = ground arith
  finish_ok rejected t (ok (v, s)) e = ground arith
  finish_ok c t (err x) e = ground arith

  replayed-ne-some :
      (io : Outcomes) (h : ℕ) (now : DateTime) (t u : Table) (r : RotationResult)
      → replayed lib io h now t ≢ ok (u, some r)
  unfolding replayed
  replayed-ne-some io h now t u r e = ground arith

  replaced_ok :
      (io : Outcomes) (raw : Text) (old : Row) (now : DateTime) (ttl : ℤ) (t u : Table)
      (r : RotationResult)
      → select_active (hash_refresh_token lib raw) now t ≡ some old
      → ltb_ℤ (pos 0) ttl ≡ true
      → replaced lib io old now ttl t ≡ ok (u, some r)
      → IsRotated io raw now ttl t u r
  unfolding replaced try_from as_uuid
  replaced_ok io raw old now ttl t u r active positive e =
      elim (Option-cases (lib.add_seconds now ttl)) [
        | inl past ↦ ground arith
        | inr (until, later) ↦
            let fresh =
              insert_fresh io.inserts (successor io old r.new_raw_token now until)
                (mark_replaced now io.new_v4 old.jti t) {u = u} in
            record {
              old = old;
              until = until;
              active = active;
              positive = positive;
              expires = later;
              drawn = elim (Option-cases io.random_bytes) [
                | inl exhausted ↦ ground arith
                | inr (bytes, random) ↦ (bytes, random, ground arith)
              ];
              owner = ground arith;
              not_nil = ground arith;
              table = ground (arith, fresh);
              new_jti = ground (arith, fresh);
              new_digest = ground (arith, fresh);
            }
      ]

-- If `rotate` answers with a new token then the presented token's row was unrevoked and unexpired
-- at `now`, its subject is not nil and is the subject answered, and the table has one more row: of
-- the same family and subject, under the new token's digest and a new identifier, live until `now`
-- plus the lifetime. The new token is made of the random bytes. The presented token's row is
-- revoked and names the new row as its replacement, and no other row of the table had the new row's
-- identifier or digest.
pub rotate-IsRotated :
    (lib : Libraries) (io : Outcomes) (raw : Text) (now : DateTime) (ttl : ℤ) (t u : Table)
    (r : RotationResult)
    → rotate lib io raw now ttl t ≡ (u, ok (some r))
    → IsRotated lib io raw now ttl t u r
unfolding rotate in_transaction
rotate-IsRotated lib io raw now ttl t u r e = elim (Bool-cases (ltb_ℤ (pos 0) ttl)) [
  | inr bad ↦ ground arith
  | inl good ↦ elim (Option-cases (select_active (hash_refresh_token lib raw) now t)) [
    | inl missing ↦ ground (arith, replayed-ne-some lib io (hash_refresh_token lib raw) now t u r)
    | inr (old, active) ↦ replaced_ok lib io raw old now ttl t u r active good (ground arith)
  ]
]

-- The database carries out each statement of a rotation.
abbrev pub IsCarriedOut : Outcomes → Type 0
IsCarriedOut io =
    (io.begins ≡ true)
    × (io.reads ≡ true)
    × (io.marks ≡ true)
    × (io.inserts ≡ true)
    × (io.commits ≡ committed)

-- An active token of a subject that is not nil is rotated, and the new token is the one that is
-- answered and stored, when the lifetime is positive and in range, the database carries out each
-- statement, the system gives random bytes, and the new identifier and digest are unused.
pub rotate_succeeds :
    (lib : Libraries) (io : Outcomes) (raw : Text) (now until : DateTime) (ttl : ℤ) (t : Table)
    (old : Row) (bytes : List ℕ)
    → ltb_ℤ (pos 0) ttl ≡ true
    → lib.add_seconds now ttl ≡ some until
    → IsCarriedOut io
    → io.random_bytes ≡ some bytes
    → select_active (hash_refresh_token lib raw) now t ≡ some old
    → old.subject ≢ 0
    → any
        (λ r. r.jti == io.new_v4 || r.hashed_token == hash_refresh_token lib (lib.base64 bytes))
        (mark_replaced now io.new_v4 old.jti t)
      ≡ false
    → (res : RotationResult) × (rotate lib io raw now ttl t ≡ (
      successor lib io old (lib.base64 bytes) now until ∷ mark_replaced now io.new_v4 old.jti t,
      ok (some res),
    ))
      × (res.new_raw_token ≡ lib.base64 bytes)
      × (as_uuid res.subject ≡ old.subject)
unfolding rotate in_transaction replaced try_from as_uuid insert generate_raw_refresh_token finish
rotate_succeeds lib io raw now until ttl t old bytes positive later up random active not_nil fresh =
    (
      record { new_raw_token = lib.base64 bytes; subject = record { uuid = old.subject } },
      ground arith,
      refl,
      refl,
    )

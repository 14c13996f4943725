-- ===== src/Auth/Refresh/Renewal.antt =====
-- gateway/src/auth/refresh.rs: a token that was issued can be exchanged.
use rust_web_fullstack.Prelude.{
  ℕ, ◌==◌, ◌||◌, false, true, any, Text, some, List, [], ◌∷◌, ok, ◌≡◌, ◌≢◌, refl, sym, ap, ◌∙◌,
  arith, ==_refl,
}
use rust_web_fullstack.Prelude.Int.{ℤ, pos, ltb_ℤ}
use rust_web_fullstack.Domain.{Uuid, DateTime, as_uuid}
use rust_web_fullstack.Auth.Store.{Row, Table, is_live, select_active, mark_replaced}
use rust_web_fullstack.Auth.Refresh.{
  Libraries, RotationResult, Outcomes, hash_refresh_token, rotate,
}
use rust_web_fullstack.Auth.Refresh.Rotation.{
  IsCarriedOut, rotate_succeeds, rotate-IsRotated, successor,
}

-- Neither the identifier nor the digest is in the table.
abbrev pub IsUnused : Uuid → ℕ → Table → Type 0
IsUnused jti digest t = any (λ r. r.jti == jti || r.hashed_token == digest) t ≡ false

IsUnused-mark_replaced :
    (now : DateTime) (jti new_jti old_jti : Uuid) (digest : ℕ) (t : Table)
    → IsUnused jti digest t
    → IsUnused jti digest (mark_replaced now new_jti old_jti t)
unfolding mark_replaced
IsUnused-mark_replaced now jti new_jti old_jti digest [] h = refl
IsUnused-mark_replaced now jti new_jti old_jti digest (r ∷ t) h =
    ground (arith, IsUnused-mark_replaced now jti new_jti old_jti digest t)

-- The row on top of the table is the active one of its digest.
pub select_active-top :
    (now : DateTime) (r : Row) (t : Table)
    → is_live r ≡ true
    → ltb_ℤ now r.expires_at ≡ true
    → select_active r.hashed_token now (r ∷ t) ≡ some r
unfolding select_active
select_active-top now r t live early = rw (==_refl r.hashed_token, live, early) refl

-- What an exchange meets that goes through: a lifetime that is positive and in range, a database
-- that carries out each statement, random bytes, and an identifier and a digest that are unused.
pub record Goes (lib : Libraries) (io : Outcomes) (now : DateTime) (ttl : ℤ) (t : Table)
    : Type 0 where
  pub positive : ltb_ℤ (pos 0) ttl ≡ true
  pub until : DateTime
  pub later : lib.add_seconds now ttl ≡ some until
  pub carried_out : IsCarriedOut io
  pub bytes : List ℕ
  pub random : io.random_bytes ≡ some bytes
  pub unused : IsUnused io.new_v4 (hash_refresh_token lib (lib.base64 bytes)) t

-- The token of a live row on top of the table is exchanged for one of the same subject.
pub rotate-top :
    (lib : Libraries) (io : Outcomes) (raw : Text) (now : DateTime) (ttl : ℤ) (r : Row)
    (t u : Table)
    → u ≡ r ∷ t
    → r.hashed_token ≡ hash_refresh_token lib raw
    → is_live r ≡ true
    → ltb_ℤ now r.expires_at ≡ true
    → r.subject ≢ 0
    → (g : Goes lib io now ttl u)
    → (res : RotationResult) × ((rotate lib io raw now ttl u).1 ≡ ok (some res))
      × (res.new_raw_token ≡ lib.base64 g.bytes)
      × (as_uuid res.subject ≡ r.subject)
rotate-top lib io raw now ttl r t u top digest live early not_nil g =
    let active : select_active (hash_refresh_token lib raw) now u ≡ some r =
      ap (select_active (hash_refresh_token lib raw) now) top
      ∙ ap (λ h. select_active h now (r ∷ t)) (sym digest)
      ∙ select_active-top now r t live early in
    let (res, done, token, owner) =
      rotate_succeeds lib io raw now g.until ttl u r g.bytes g.positive g.later g.carried_out
        g.random active not_nil
        (IsUnused-mark_replaced now io.new_v4 io.new_v4 r.jti _ u g.unused) in
    (res, ap (λ w. w.1) done, token, owner)

-- The token that an exchange answers with can be exchanged itself, on the table that the exchange
-- left and at any time before the token expires, and is exchanged for one of the same subject: when
-- the lifetime is positive and in range, the database carries out each statement, the system gives
-- random bytes, and the new identifier and digest are unused.
pub rotate_again :
    (lib : Libraries) (io io' : Outcomes) (raw : Text) (now now' until : DateTime) (ttl ttl' : ℤ)
    (t u : Table) (r : RotationResult)
    → rotate lib io raw now ttl t ≡ (u, ok (some r))
    → lib.add_seconds now ttl ≡ some until
    → ltb_ℤ now' until ≡ true
    → Goes lib io' now' ttl' u
    → (res : RotationResult) × ((rotate lib io' r.new_raw_token now' ttl' u).1 ≡ ok (some res))
      × (as_uuid res.subject ≡ as_uuid r.subject)
rotate_again lib io io' raw now now' until ttl ttl' t u r done expires early g =
    let rotated = rotate-IsRotated lib io raw now ttl t u r done in
    let row = successor lib io rotated.old r.new_raw_token now rotated.until in
    let rest = mark_replaced now io.new_v4 rotated.old.jti t in
    let same : rotated.until ≡ until = ground (arith, rotated.expires) in
    let (res, answered, token, owner) =
      rotate-top lib io' r.new_raw_token now' ttl' row rest u rotated.table refl refl
        (rw same early) rotated.not_nil g in
    (res, answered, owner ∙ sym rotated.owner)

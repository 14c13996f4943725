-- ===== src/Auth/Store.antt =====
-- The table `refresh_tokens` (migrations/100, 101) and the SQL that gateway/src/auth runs on it. A
-- digest is the number that its 32 bytes stand for. Each statement takes whether the database
-- carried it out.
pub mod Counts
use rust_web_fullstack.Prelude.{
  ℕ, Bool, true, false, ◌&&◌, ◌||◌, ◌==◌, if◌then◌else◌, Option, none, some, List, [], ◌∷◌, map,
  any, keep, not, Result, ok, err,
}
use rust_web_fullstack.Prelude.Int.{ltb_ℤ}
use rust_web_fullstack.Domain.{Uuid, DateTime, UserIdError}

pub record Row : Type 0 where
  pub jti : Uuid
  pub family_id : Uuid
  pub subject : Uuid
  pub hashed_token : ℕ
  pub expires_at : DateTime
  pub revoked_at : Option DateTime
  pub replaced_by : Option Uuid
  pub created_at : DateTime

abbrev pub Table : Type 0
Table = List Row

-- `RefreshError`, the texts and sources dropped.
pub data RefreshError : Type 0 where
  os_rng sqlx invalid_ttl : RefreshError
  user_id : UserIdError → RefreshError

-- A statement that the database may fail to carry out.
abbrev pub query {ℓ} : {A : Type ℓ} → Bool → A → Result A RefreshError
query true a = ok a
query false a = err sqlx

abbrev pub is_live : Row → Bool
is_live r = elim r.revoked_at [ none ↦ true | some t ↦ false ]

abbrev pub first : (Row → Bool) → Table → Option Row
first p [] = none
first p (r ∷ t) = if p r then some r else first p t

-- SELECT … WHERE hashed_token = $1 AND revoked_at IS NULL AND expires_at > $2 FOR UPDATE
unfoldable pub select_active : ℕ → DateTime → Table → Option Row
select_active h now = first (λ r. r.hashed_token == h && is_live r && ltb_ℤ now r.expires_at)

-- SELECT family_id … WHERE hashed_token = $1 LIMIT 1
unfoldable pub select_any : ℕ → Table → Option Row
select_any h = first (λ r. r.hashed_token == h)

abbrev pub revoke_if : (Row → Bool) → DateTime → Row → Row
revoke_if p now r = if p r && is_live r then record r { revoked_at = some now } else r

-- UPDATE … SET revoked_at = $1 WHERE family_id = $2 AND revoked_at IS NULL
unfoldable pub revoke_family : DateTime → Uuid → Table → Table
revoke_family now family = map (revoke_if (λ r. r.family_id == family) now)

-- UPDATE … SET revoked_at = NOW() WHERE subject = $1 AND revoked_at IS NULL
unfoldable pub revoke_subject : DateTime → Uuid → Table → Table
revoke_subject now subject = map (revoke_if (λ r. r.subject == subject) now)

abbrev pub replace_if : DateTime → Uuid → Uuid → Row → Row
replace_if now new_jti old_jti r =
    if r.jti == old_jti then record r { revoked_at = some now; replaced_by = some new_jti } else r

-- UPDATE … SET revoked_at = $1, replaced_by = $2 WHERE jti = $3
unfoldable pub mark_replaced : DateTime → Uuid → Uuid → Table → Table
mark_replaced now new_jti old_jti = map (replace_if now new_jti old_jti)

-- INSERT: the primary key and the unique index on hashed_token refuse a second row.
unfoldable pub insert : Bool → Row → Table → Result Table RefreshError
insert up new t =
    if any (λ r. r.jti == new.jti || r.hashed_token == new.hashed_token) t
    then err sqlx
    else query up (new ∷ t)

-- DELETE … WHERE jti = $1
unfoldable pub delete : Uuid → Table → Table
delete jti = keep (λ r. not (r.jti == jti))

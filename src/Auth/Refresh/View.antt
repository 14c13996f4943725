-- ===== src/Auth/Refresh/View.antt =====
-- What the table of refresh tokens means: for every digest, a token that is not known, that is
-- live, or that is spent. `present` is what gateway/src/auth/refresh.rs promises of a presented
-- token, in these terms.
pub mod Marked
pub mod Refines
use rust_web_fullstack.Prelude.{ℕ, Option, none, some, ◌==◌, if◌then◌else◌}
use rust_web_fullstack.Prelude.Int.{ltb_ℤ}
use rust_web_fullstack.Domain.{Uuid, DateTime}
use rust_web_fullstack.Auth.Store.{Row, Table, select_any}

pub data Token : Type 0 where
  unknown : Token
  -- The family, the subject and the time it expires at.
  live : Uuid → Uuid → DateTime → Token
  spent : Uuid → Token

abbrev pub View : Type 0
View = ℕ → Token

abbrev pub view_row : Row → Token
view_row r = elim r.revoked_at [
  | none ↦ live r.family_id r.subject r.expires_at
  | some t ↦ spent r.family_id
]

unfoldable pub view : Table → View
view t h = elim (select_any h t) [ none ↦ unknown | some r ↦ view_row r ]

abbrev pub spend : Uuid → Token → Token
spend f unknown = unknown
spend f (live g s e) = if g == f then spent g else live g s e
spend f (spent g) = spent g

-- What presenting the digest `h` at `now` does: an unknown token does nothing, a spent or expired
-- one ends its family, and a live one is exchanged for `h'`, live until `until`, for its subject.
unfoldable pub present : ℕ → DateTime → ℕ → DateTime → View → View × Option Uuid
present h now h' until v = elim (v h) [
  | unknown ↦ (v, none)
  | spent f ↦ ((λ d. spend f (v d)), none)
  | live f s e ↦
      if ltb_ℤ now e
      then ((λ d. if d == h' then live f s until else if d == h then spent f else v d), some s)
      else ((λ d. spend f (v d)), none)
]

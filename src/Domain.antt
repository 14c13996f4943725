-- ===== src/Domain.antt =====
-- crates/domain/src/lib.rs: the user identifier, its constructors and conversions, and the search
-- result. A `Uuid` is the number that its 128 bits stand for; parsing one is the uuid crate's, a
-- parameter of `from_str`.
pub mod Ids
use rust_web_fullstack.Prelude.{
  ℕ, Bool, ◌==◌, if◌then◌else◌, Option, Result, ok, err, ◌>>=◌, ok_or, Text,
}
use rust_web_fullstack.Prelude.Int.{ℤ}

abbrev pub Uuid : Type 0
Uuid = ℕ

-- `DateTime<Utc>`, in microseconds from the epoch.
abbrev pub DateTime : Type 0
DateTime = ℤ

pub record UserId : Type 0 where
  pub uuid : Uuid

-- The payload of `Parse`, the uuid crate's own error, is dropped.
pub data UserIdError : Type 0 where
  nil parse : UserIdError

-- `Uuid::is_nil`.
abbrev pub is_nil : Uuid → Bool
is_nil u = u == 0

unfoldable pub as_uuid : UserId → Uuid
as_uuid u = u.uuid

unfoldable pub try_from : Uuid → Result UserId UserIdError
try_from value = if is_nil value then err nil else ok (record { uuid = value })

unfoldable pub from_str : (Text → Option Uuid) → Text → Result UserId UserIdError
unfolding try_from
from_str parse_str s = ok_or parse (parse_str s) >>= try_from

pub record SearchResult : Type 0 where
  pub id : Uuid
  pub title : Text
  pub url : Text
  pub snippet : Text
  pub created_at : DateTime

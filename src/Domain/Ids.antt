-- ===== src/Domain/Ids.antt =====
-- What a `UserId` guarantees: crates/domain/src/lib.rs.
use rust_web_fullstack.Prelude.{◌≡◌, ◌≢◌, ◌↔◌, Option, some, ok, arith, Text}
use rust_web_fullstack.Domain.{Uuid, UserId, as_uuid, from_str}

-- A text parses to a user id exactly when the uuid crate reads it as that id's uuid and the uuid is
-- not nil.
pub from_str_iff :
    (parse_str : Text → Option Uuid) (s : Text) (u : UserId)
    → (from_str parse_str s ≡ ok u) ↔ ((parse_str s ≡ some (as_uuid u)) × (as_uuid u ≢ 0))
unfolding from_str as_uuid
from_str_iff parse_str s u = ground arith

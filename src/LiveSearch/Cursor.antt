-- ===== src/LiveSearch/Cursor.antt =====
-- Search pages and the cursors between them: live-search/src/db.rs, `search_with_cursor`,
-- `encode_cursor` and `decode_cursor`. chrono, printing and parsing of numbers and UUIDs, base64
-- and UTF-8 belong to libraries: they are the fields of `Codec`. A text is its code points and a
-- byte a number.
pub mod Paging
pub mod RoundTrip
use rust_web_fullstack.Prelude.{
  ℕ, Bool, true, false, ltb, ◌==◌, ◌&&◌, ◌||◌, Text, Option, none, some, List, [], ◌∷◌, ◌++◌, take,
  keep, map, Result, ok, err, ok_or, ◌>>=◌, if◌then◌else◌, String, map_err,
}
use rust_web_fullstack.Prelude.Int.{ℤ}
use rust_web_fullstack.Domain.{Uuid, SearchResult}

-- A stored row with the instant as the microseconds since an origin before all rows, so that rows
-- compare as PostgreSQL compares (created_at, id).
pub record Position : Type 0 where
  pub created_at : ℕ
  pub id : Uuid

unfoldable pub precedes : Position → Position → Bool
precedes a b = ltb a.created_at b.created_at || a.created_at == b.created_at && ltb a.id b.id

module _ {R : Type 0} (position : R → Position) where
  -- WHERE … AND (created_at, id) < ($2, $3) ORDER BY created_at DESC, id DESC LIMIT $4, on the
  -- matching rows in that order.
  unfoldable pub search_with_cursor : Option Position → ℕ → List R → List R
  unfolding precedes
  search_with_cursor none limit rows = take limit rows
  search_with_cursor (some cursor) limit rows =
      take limit (keep (λ r. precedes (position r) cursor) rows)

pub record Codec (Instant : Type 0) : Type 0 where
  -- chrono's instants, which may be finer than a microsecond.
  pub timestamp_micros : Instant → ℤ
  pub from_timestamp_micros : ℤ → Option Instant
  -- `to_string` and `parse` of an i64, and of a UUID.
  pub show_i64 : ℤ → Text
  pub parse_i64 : Text → Option ℤ
  pub show_uuid : Uuid → Text
  pub parse_uuid : Text → Option Uuid
  pub as_bytes : Text → List ℕ
  pub from_utf8 : List ℕ → Option Text
  pub base64url_encode : List ℕ → Text
  pub base64url_decode : Text → Option (List ℕ)

abbrev pub bar : ℕ
bar = 0x7c

-- `splitn(2, '|')`: what stands before the first bar, and what stands after it, if there is one.
unfoldable pub split_once : Text → Text × Option Text
split_once [] = ([], none)
split_once (c ∷ s) =
    let (before, after) = split_once s in if c == bar then ([], some s) else (c ∷ before, after)

module _ {Instant : Type 0} (codec : Codec Instant) where
  unfoldable pub encode_cursor : Instant → Uuid → Text
  encode_cursor created_at id = codec.base64url_encode (
      codec.as_bytes
        (codec.show_i64 (codec.timestamp_micros created_at) ++ bar ∷ codec.show_uuid id))

  unfoldable pub decode_cursor : Text → Result (Instant × Uuid) String
  unfolding split_once
  decode_cursor s = do
    bytes ← ok_or "base64 decode failed" (codec.base64url_decode s)
    raw ← ok_or "invalid utf-8" (codec.from_utf8 bytes)
    let parts = split_once raw
    id_str ← ok_or "missing uuid" parts.1
    micros ← ok_or "invalid timestamp" (codec.parse_i64 parts.0)
    ts ← ok_or "invalid timestamp value" (codec.from_timestamp_micros micros)
    id ← ok_or "invalid uuid" (codec.parse_uuid id_str)
    ok (ts, id)

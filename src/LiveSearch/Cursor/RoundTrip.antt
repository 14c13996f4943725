-- ===== src/LiveSearch/Cursor/RoundTrip.antt =====
-- live-search/src/db.rs: `decode_cursor` after `encode_cursor`.
use rust_web_fullstack.Prelude.Int.{ℤ, pos, negsuc}
use rust_web_fullstack.Prelude.{
  ◌<◌, ◌^◌, none, ◌≢◌, Option-cases, inl, inr, ap, ◌∙◌, ℕ, false, ◌==◌, Text, some, List, [], ◌∷◌,
  ◌++◌, ok, ◌≡◌, refl, All,
}
use rust_web_fullstack.Domain.{Uuid}
use rust_web_fullstack.LiveSearch.Cursor.{Codec, bar, split_once, encode_cursor, decode_cursor}

-- The value of an i64.
abbrev pub IsI64 : ℤ → Type 0
IsI64 (pos n) = n < 2 ^ 63
IsI64 (negsuc n) = n < 2 ^ 63

-- What the libraries document: each printed or encoded value reads back, and a printed number has
-- no bar in it. The microseconds of an instant are an i64, and an instant that is made from
-- microseconds has these microseconds.
pub record IsCodec {Instant : Type 0} (codec : Codec Instant) : Type 0 where
  pub micros : (t : Instant) → IsI64 (codec.timestamp_micros t)
  pub made :
      (m : ℤ) (t : Instant) → codec.from_timestamp_micros m ≡ some t → codec.timestamp_micros t ≡ m
  pub covers : (t : Instant) → codec.from_timestamp_micros (codec.timestamp_micros t) ≢ none
  pub number : (n : ℤ) → IsI64 n → codec.parse_i64 (codec.show_i64 n) ≡ some n
  pub no_bar : (n : ℤ) → All (λ c. c == bar ≡ false) (codec.show_i64 n)
  pub uuid : (id : Uuid) → codec.parse_uuid (codec.show_uuid id) ≡ some id
  pub utf8 : (s : Text) → codec.from_utf8 (codec.as_bytes s) ≡ some s
  pub base64 : (b : List ℕ) → codec.base64url_decode (codec.base64url_encode b) ≡ some b

split_at_bar :
    (s t : Text) → All (λ c. c == bar ≡ false) s → split_once (s ++ bar ∷ t) ≡ (s, some t)
unfolding split_once
split_at_bar [] t h = refl
split_at_bar (c ∷ s) t (a, h) = rw (a, split_at_bar s t h) refl

module _ {Instant : Type 0} (codec : Codec Instant) (laws : IsCodec codec) where
  decode_encoded :
      (t back : Instant) (id : Uuid)
      → codec.from_timestamp_micros (codec.timestamp_micros t) ≡ some back
      → decode_cursor codec (encode_cursor codec t id) ≡ ok (back, id)
  unfolding encode_cursor decode_cursor
  decode_encoded t back id r =
      let n = codec.timestamp_micros t in
      rw
        (
          laws.base64 _,
          laws.utf8 _,
          split_at_bar (codec.show_i64 n) (codec.show_uuid id) (laws.no_bar n),
          laws.number n (laws.micros t),
          r,
          laws.uuid id,
        )
        refl

  -- A cursor that was encoded decodes to the same id and to an instant of the same microsecond. It
  -- is the same instant where that was made from microseconds, as PostgreSQL's are.
  pub decode_cursor-encode_cursor :
      (t : Instant) (id : Uuid)
      → ((back : Instant) × (decode_cursor codec (encode_cursor codec t id) ≡ ok (back, id))
          × (codec.timestamp_micros back ≡ codec.timestamp_micros t))
        × ((m : ℤ)
            → codec.from_timestamp_micros m ≡ some t
            → decode_cursor codec (encode_cursor codec t id) ≡ ok (t, id))
  decode_cursor-encode_cursor t id = (
    elim (Option-cases (codec.from_timestamp_micros (codec.timestamp_micros t))) [
      | inl outside ↦ absurd (laws.covers t outside)
      | inr (back, made) ↦ (back, decode_encoded t back id made, laws.made _ back made)
    ],
    λ m made. decode_encoded t t id (ap codec.from_timestamp_micros (laws.made m t made) ∙ made),
  )

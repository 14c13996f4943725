-- ===== src/Auth/Jwt.antt =====
-- gateway/src/auth/jwt.rs: creating and validating access tokens. Signing and verifying are the
-- jsonwebtoken crate's, the fields of `JwtLibrary`.
pub mod RoundTrip
use rust_web_fullstack.Prelude.{
  ℕ, ◌/◌, String, Text, Option, none, some, Result, ok, err, ◌>>=◌, map_err, ok_or, Stop, failed,
  panicked,
}
use rust_web_fullstack.Prelude.Int.{ℤ, pos, negsuc}
use rust_web_fullstack.Domain.{Uuid, DateTime, UserId}
use rust_web_fullstack.Settings.{jwt_iss, jwt_aud}
use rust_web_fullstack.Auth.Error.{AppError, jwt, token_expired, invalid_signature, internal}

pub record Claims : Type 0 where
  pub sub : UserId
  pub exp : ℕ
  pub iat : ℕ
  pub aud : String
  pub iss : String
  pub jti : Uuid

-- The kinds of `jsonwebtoken::errors::ErrorKind` that the code tells apart.
pub data ErrorKind : Type 0 where
  expired_signature bad_signature other : ErrorKind

pub record JwtLibrary : Type 0 where
  -- `encode` with an EdDSA header and the key of this PEM text.
  pub encode : Text → Claims → Option Text
  -- `decode` with the key of this PEM text, for EdDSA, at a time in seconds, with the issuer and
  -- the audience that the validation requires.
  pub decode : Text → ℕ → String → String → Text → Result Claims ErrorKind

-- `t.timestamp()`, rounded down, as a `u64`.
unfoldable pub unix_seconds : DateTime → Result ℕ AppError
unix_seconds (pos micros) = ok (micros / 1_000_000)
unix_seconds (negsuc micros) = err (internal "timestamp overflow")

unfoldable pub create_jwt :
    (DateTime → ℤ → Option DateTime)
    → JwtLibrary
    → DateTime
    → Uuid
    → UserId
    → Text
    → ℤ
    → Result Text (Stop AppError)
unfolding unix_seconds
create_jwt add_seconds lib now new_v4 user encoding_key ttl = do
  until ← ok_or panicked (add_seconds now ttl)
  expires ← map_err failed (unix_seconds until)
  issued ← map_err failed (unix_seconds now)
  ok_or (failed (internal "JWT encoding")) (
      lib.encode encoding_key (record {
        sub = user;
        exp = expires;
        iat = issued;
        aud = jwt_aud;
        iss = jwt_iss;
        jti = new_v4;
      }))

abbrev of_kind : ErrorKind → AppError
of_kind expired_signature = token_expired
of_kind bad_signature = invalid_signature
of_kind other = jwt

unfoldable pub validate_jwt : JwtLibrary → ℕ → Text → Text → Result Claims AppError
validate_jwt lib time decoding_key token =
    map_err of_kind (lib.decode decoding_key time jwt_iss jwt_aud token)

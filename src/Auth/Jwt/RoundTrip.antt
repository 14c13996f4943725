-- ===== src/Auth/Jwt/RoundTrip.antt =====
-- An access token that the gateway creates is one that it accepts: gateway/src/auth/jwt.rs.
use rust_web_fullstack.Prelude.{
  ℕ, ◌+◌, ◌*◌, ◌/◌, ◌≤◌, ◌<◌, Text, Option, some, ok, ◌≡◌, refl, arith, inl, inr, Option-cases,
}
use rust_web_fullstack.Prelude.Int.{ℤ, pos}
use rust_web_fullstack.Domain.{Uuid, DateTime, UserId}
use rust_web_fullstack.Settings.{jwt_iss, jwt_aud}
use rust_web_fullstack.Auth.Jwt.{Claims, JwtLibrary, create_jwt, validate_jwt}

-- What jsonwebtoken documents of a key pair: a token that was signed for an issuer and an audience
-- decodes to its claims wherever those two are required, until it expires.
abbrev pub IsKeyPair : JwtLibrary → Text → Text → Type 0
IsKeyPair lib private public =
    (c : Claims) (token : Text) (time : ℕ)
    → lib.encode private c ≡ some token
    → time < c.exp
    → lib.decode public time c.iss c.aud token ≡ ok c

-- What chrono documents of adding seconds to a time from the epoch on.
abbrev pub AddsSeconds : (DateTime → ℤ → Option DateTime) → Type 0
AddsSeconds add_seconds =
    (t n : ℕ) (u : DateTime) → add_seconds (pos t) (pos n) ≡ some u → u ≡ pos (t + n * 1_000_000)

-- A token that `create_jwt` made at a time from the epoch on, for a lifetime of `ttl` seconds, is
-- accepted at every time before `now` plus that lifetime, in whole seconds; its claims hold the
-- subject, the time of issue in whole seconds and an expiry `ttl` seconds after that. The
-- documented behaviour of the libraries is assumed.
pub validate_jwt-create_jwt :
    (add_seconds : DateTime → ℤ → Option DateTime) (lib : JwtLibrary) (now : ℕ) (new_v4 : Uuid)
    (user : UserId) (private public token : Text) (ttl time : ℕ)
    → AddsSeconds add_seconds
    → IsKeyPair lib private public
    → create_jwt add_seconds lib (pos now) new_v4 user private (pos ttl) ≡ ok token
    → time < (now + ttl * 1_000_000) / 1_000_000
    → (c : Claims) × (validate_jwt lib time public token ≡ ok c)
      × (c.sub ≡ user)
      × (c.exp ≡ c.iat + ttl)
      × (c.iat * 1_000_000 ≤ now)
      × (now < (c.iat + 1) * 1_000_000)
unfolding create_jwt validate_jwt
validate_jwt-create_jwt add_seconds lib now new_v4 user private public token ttl time adds pair e
      before =
    elim (Option-cases (add_seconds (pos now) (pos ttl))) [
      | inl past ↦ ground arith
      | inr (until, later) ↦
          let c : Claims = record {
            sub = user;
            exp = (now + ttl * 1_000_000) / 1_000_000;
            iat = now / 1_000_000;
            aud = jwt_aud;
            iss = jwt_iss;
            jti = new_v4;
          } in
          let is : until ≡ pos (now + ttl * 1_000_000) = adds now ttl until later in
          let signed : lib.encode private c ≡ some token = ground arith in
          (c, rw (pair c token time signed before), refl, omega arith, omega arith, omega arith)
    ]

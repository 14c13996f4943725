-- ===== src/Auth/Middleware/Guard.antt =====
-- What the Bearer middleware keeps from happening: gateway/src/auth/middleware.rs, with the logout
-- handler of gateway/src/auth/handlers.rs as the route.
use rust_web_fullstack.Prelude.{
  ℕ, Bool, true, false, ◌&&◌, Text, codes, text_eq, text_eq_iff, none, some, Result, ok, err, ◌≡◌,
  refl, inl, inr, arith, sym, ◌∙◌, Option-cases, Result-cases,
}
use mathlib.Core.Path.{ap₂}
use rust_web_fullstack.Domain.{DateTime, as_uuid}
use rust_web_fullstack.Gateway.State.{GatewayState}
use rust_web_fullstack.Auth.Error.{AppError, Response, auth_error, internal, into_response}
use rust_web_fullstack.Auth.Store.{Table, is_live, revoke_subject}
use rust_web_fullstack.Auth.Store.Counts.{count, of_subject}
use rust_web_fullstack.Auth.Jwt.{JwtLibrary, Claims}
use rust_web_fullstack.Auth.Session.{SessionApi}
use rust_web_fullstack.Auth.Handlers.{logout_handler}
use rust_web_fullstack.Auth.Handlers.Revocation.{revoke_subject_dead, logout_handler_ok}
use rust_web_fullstack.Auth.Middleware.{
  Request, is_success, bearer_claims, guarded, after_logout, auth_middleware,
}

-- The response of the logout route: the handler's answer, or its error's response.
abbrev pub logout_response : Result Text AppError → Response
logout_response (ok body) = record { status = 200; error = none }
logout_response (err e) = into_response e

-- The logout route behind the middleware.
abbrev pub logout_route :
    {S : Type 0} → Bool → DateTime → GatewayState → Claims → Table × S → (Table × S) × Response
logout_route up now state claims (t, s) =
    let (u, answer) = logout_handler up now state claims t in ((u, s), logout_response answer)

error_status : (e : AppError) → is_success (into_response e).status ≡ false
unfolding into_response
error_status auth_error = refl
error_status e = refl

module _ {W S : Type 0} (api : SessionApi S) (jwts : JwtLibrary) (time : ℕ) (state : GatewayState)
    (request : Request) (next : Claims → W × S → (W × S) × Response) where
  -- Without a Bearer token that validates, the route does not run: the answer is 401, and neither
  -- the route's state nor the session changes.
  pub auth_middleware-refuses :
      (w : W × S)
      → bearer_claims jwts time state request ≡ none
      → auth_middleware api jwts time state request next w
        ≡ (w, record { status = 401; error = some "Authentication failed" })
  unfolding auth_middleware into_response
  auth_middleware-refuses w missing = rw (missing, guarded) refl

  -- With a Bearer token that validates, every route but logout runs once, on the claims of that
  -- token, and its outcome is the answer.
  pub auth_middleware-forwards :
      (w : W × S) (claims : Claims)
      → bearer_claims jwts time state request ≡ some claims
      → text_eq request.path (codes "/auth/logout") ≡ false
      → auth_middleware api jwts time state request next w ≡ next claims w
  unfolding auth_middleware
  auth_middleware-forwards w claims present elsewhere = rw (present, elsewhere, guarded) refl

module _ {S : Type 0} (api : SessionApi S) where
  after_logout_success :
      {W : Type 0} (response r : Response) (w w' : W) (s s' : S)
      → after_logout api true response (w, s) ≡ ((w', s'), r)
      → is_success r.status ≡ true
      → (w ≡ w') × (api.flush s ≡ (s', true)) × (response ≡ r)
  unfolding after_logout
  after_logout_success response r w w' s s' e good =
      ground (arith, error_status (internal "session logout"))

  logged_out :
      (up : Bool) (now : DateTime) (state : GatewayState) (claims : Claims) (t u : Table) (s s' : S)
      (r : Response)
      → guarded api true (logout_route up now state) (t, s) (some claims) ≡ ((u, s'), r)
      → is_success r.status ≡ true
      → (u ≡ revoke_subject now (as_uuid claims.sub) t) × (api.flush s ≡ (s', true))
  unfolding guarded
  logged_out up now state claims t u s s' r e good =
      let (kept, flushed, answered) =
        after_logout_success (logout_response (logout_handler up now state claims t).1) r
          (logout_handler up now state claims t).0 u s s' e good in
      elim (Result-cases (logout_handler up now state claims t).1) [
        | inl (body, done) ↦
            (logout_handler_ok up now state claims t u body (ground arith), flushed)
        | inr (x, refused) ↦ ground (arith, error_status x)
      ]

-- If a logout through the middleware is answered with success then the request bore a token that
-- validates, no refresh token of its subject is live any more, and the request's session was
-- flushed in the store.
pub auth_middleware-logout :
    {S : Type 0} (api : SessionApi S) (jwts : JwtLibrary) (time : ℕ) (state : GatewayState)
    (request : Request) (up : Bool) (now : DateTime) (t u : Table) (s s' : S) (r : Response)
    → request.path ≡ codes "/auth/logout"
    → auth_middleware api jwts time state request (logout_route up now state) (t, s) ≡ ((u, s'), r)
    → is_success r.status ≡ true
    → (claims : Claims) × (bearer_claims jwts time state request ≡ some claims)
      × (count (λ x. of_subject (as_uuid claims.sub) x && is_live x) u ≡ 0)
      × (api.flush s ≡ (s', true))
unfolding auth_middleware
auth_middleware-logout api jwts time state request up now t u s s' r path e good =
    elim (Option-cases (bearer_claims jwts time state request)) [
      | inl missing ↦ ground (arith, error_status auth_error)
      | inr (claims, present) ↦
          let (revoked, flushed) =
            logged_out api up now state claims t u s s' r
              (ap₂ (λ b c. guarded api b (logout_route up now state) (t, s) c)
                  (sym ((text_eq_iff request.path _).1 path)) (sym present)
                ∙ e)
              good in
          (claims, present, rw revoked (revoke_subject_dead now (as_uuid claims.sub) t), flushed)
    ]

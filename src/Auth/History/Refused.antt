-- ===== src/Auth/History/Refused.antt =====
-- A refresh token that was exchanged or revoked is refused from then on, whatever requests follow:
-- gateway/src/auth/handlers.rs over gateway/src/auth/refresh.rs.
use rust_web_fullstack.Prelude.{ap, subst, Bool, Text, Option, some, List, [], ok, ◌≡◌, ◌≢◌, arith}
use rust_web_fullstack.Domain.{Uuid, DateTime, as_uuid}
use rust_web_fullstack.Gateway.State.{GatewayState}
use rust_web_fullstack.Auth.Store.{Row, Table, revoke_subject, select_any}
use rust_web_fullstack.Auth.Refresh.{Libraries, Outcomes, hash_refresh_token}
use rust_web_fullstack.Auth.Refresh.Rotation.{successor}
use rust_web_fullstack.Auth.Refresh.Integrity.{IsSound}
use rust_web_fullstack.Auth.Refresh.Replay.{select_active_gone}
use rust_web_fullstack.Auth.Jwt.{JwtLibrary, Claims}
use rust_web_fullstack.Auth.Session.{SessionApi}
use rust_web_fullstack.Auth.Handlers.{RefreshResponse, refresh_handler, logout_handler}
use rust_web_fullstack.Auth.Handlers.Revocation.{logout_handler_ok}
use rust_web_fullstack.Auth.Handlers.Refreshing.{IsRefreshed, refresh_handler-IsRefreshed}
use rust_web_fullstack.Auth.History.{Call, serve_all}
use rust_web_fullstack.Auth.History.Sound.{history-IsSound}
use rust_web_fullstack.Auth.History.Spent.{
  IsSpent, marked-IsSpent, revoke_subject-spends, serve_all-IsSpent,
}

module _ {S : Type 0} (lib : Libraries) (jwts : JwtLibrary) (parse_uuid : Text → Option Uuid)
    (api : SessionApi S) (state : GatewayState) where
  -- No refresh is answered with a token where the presented one is spent.
  spent_refused :
      (io : Outcomes) (jwt_now : DateTime) (jwt_jti : Uuid) (now : DateTime) (raw : Text)
      (t : Table) (response : RefreshResponse)
      → IsSpent (hash_refresh_token lib raw) t
      → (refresh_handler lib jwts parse_uuid io jwt_now jwt_jti now state raw t).1 ≢ ok response
  spent_refused io jwt_now jwt_jti now raw t response v e =
      let served = refresh_handler lib jwts parse_uuid io jwt_now jwt_jti now state raw t in
      let done : IsRefreshed lib jwts parse_uuid io jwt_now jwt_jti now state raw t served.0
          response =
        refresh_handler-IsRefreshed lib jwts parse_uuid io jwt_now jwt_jti now state raw t served.0
          response (ap (λ a. (served.0, a)) e) in
      let gone = select_active_gone (hash_refresh_token lib raw) now t v.dead in
      ground (arith, done.rotated.active)

  exchanged-IsSpent :
      (io : Outcomes) (jwt_now : DateTime) (jwt_jti : Uuid) (now : DateTime) (raw : Text)
      (t u : Table) (response : RefreshResponse)
      → IsSound t
      → refresh_handler lib jwts parse_uuid io jwt_now jwt_jti now state raw t ≡ (u, ok response)
      → IsSpent (hash_refresh_token lib raw) u
  exchanged-IsSpent io jwt_now jwt_jti now raw t u response v e =
      let got =
        refresh_handler-IsRefreshed lib jwts parse_uuid io jwt_now jwt_jti now state raw t u
          response e in
      let done = got.rotated in
      rw done.table (
        marked-IsSpent (hash_refresh_token lib raw) now t done.old
          (successor lib io done.old got.rotation.new_raw_token now done.until) done.active
          (v.digests (hash_refresh_token lib raw)) done.new_digest)

  -- A refresh token that a refresh exchanged is never exchanged again: after any requests before
  -- it, from the empty table, and any requests after it, whatever each of them meets, no refresh
  -- that presents it is answered with tokens.
  pub exchanged_refused :
      (before after : List (Call S)) (io io' : Outcomes) (jwt_now jwt_now' : DateTime)
      (jwt_jti jwt_jti' : Uuid) (now now' : DateTime) (raw : Text) (u : Table)
      (response response' : RefreshResponse)
      → refresh_handler lib jwts parse_uuid io jwt_now jwt_jti now state raw
          (serve_all lib jwts parse_uuid api state before [])
        ≡ (u, ok response)
      → (refresh_handler lib jwts parse_uuid io' jwt_now' jwt_jti' now' state raw
          (serve_all lib jwts parse_uuid api state after u)).1
        ≢ ok response'
  exchanged_refused before after io io' jwt_now jwt_now' jwt_jti jwt_jti' now now' raw u response
        response' e =
      let t = serve_all lib jwts parse_uuid api state before [] in
      spent_refused io' jwt_now' jwt_jti' now' raw (serve_all lib jwts parse_uuid api state after u)
        response'
        (serve_all-IsSpent lib jwts parse_uuid api state (hash_refresh_token lib raw) after u (
          exchanged-IsSpent io jwt_now jwt_jti now raw t u response
            (history-IsSound lib jwts parse_uuid api state before) e))

  -- A refresh token of a subject that logs out is never exchanged afterwards: from the table that
  -- any requests leave of the empty one, and in which the token's row has the claims' subject,
  -- after a logout with these claims that is answered with no error and any requests after it, no
  -- refresh that presents the token is answered with tokens.
  pub logged_out_refused :
      (before after : List (Call S)) (up : Bool) (at : DateTime) (claims : Claims) (io : Outcomes)
      (jwt_now : DateTime) (jwt_jti : Uuid) (now : DateTime) (raw : Text) (r : Row) (u : Table)
      (body : Text) (response : RefreshResponse)
      → select_any (hash_refresh_token lib raw) (serve_all lib jwts parse_uuid api state before [])
        ≡ some r
      → r.subject ≡ as_uuid claims.sub
      → logout_handler up at state claims (serve_all lib jwts parse_uuid api state before [])
        ≡ (u, ok body)
      → (refresh_handler lib jwts parse_uuid io jwt_now jwt_jti now state raw
          (serve_all lib jwts parse_uuid api state after u)).1
        ≢ ok response
  logged_out_refused before after up at claims io jwt_now jwt_jti now raw r u body response found
        own out =
      let t = serve_all lib jwts parse_uuid api state before [] in
      let h = hash_refresh_token lib raw in
      let sound = history-IsSound lib jwts parse_uuid api state before in
      let spent : IsSpent h (revoke_subject at (as_uuid claims.sub) t) =
        subst (λ s. IsSpent h (revoke_subject at s t)) own
          (revoke_subject-spends h at t r found (sound.digests h)) in
      let left : IsSpent h u = rw (logout_handler_ok up at state claims t u body out) spent in
      spent_refused io jwt_now jwt_jti now raw (serve_all lib jwts parse_uuid api state after u)
        response (serve_all-IsSpent lib jwts parse_uuid api state h after u left)

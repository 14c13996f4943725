-- ===== src/Auth/Handlers/Revocation.antt =====
-- Logging out revokes the subject's refresh tokens: gateway/src/auth/handlers.rs, `logout_handler`.
use rust_web_fullstack.Prelude.{Bool, ◌&&◌, Text, ok, ◌≡◌, arith}
use rust_web_fullstack.Domain.{Uuid, DateTime, as_uuid}
use rust_web_fullstack.Gateway.State.{GatewayState}
use rust_web_fullstack.Auth.Store.{Table, is_live, revoke_if, revoke_subject}
use rust_web_fullstack.Auth.Store.Counts.{count, of_subject, count-map-eq-zero}
use rust_web_fullstack.Auth.Jwt.{Claims}
use rust_web_fullstack.Auth.Handlers.{logout_handler}
use rust_web_fullstack.Auth.Refresh.Integrity.{IsSound, map-IsSound}

pub revoke_subject_dead :
    (now : DateTime) (subject : Uuid) (t : Table)
    → count (λ r. of_subject subject r && is_live r) (revoke_subject now subject t) ≡ 0
unfolding revoke_subject
revoke_subject_dead now subject t =
    count-map-eq-zero _ (revoke_if (of_subject subject) now) (λ r. ground arith) t

pub logout_handler_ok :
    (up : Bool) (now : DateTime) (state : GatewayState) (claims : Claims) (t u : Table)
    (body : Text)
    → logout_handler up now state claims t ≡ (u, ok body)
    → u ≡ revoke_subject now (as_uuid claims.sub) t
unfolding logout_handler
logout_handler_ok up now state claims t u body e = ground arith

pub revoke_subject-IsSound :
    (now : DateTime) (subject : Uuid) (t : Table)
    → IsSound t
    → IsSound (revoke_subject now subject t)
unfolding revoke_subject
revoke_subject-IsSound now subject t v =
    map-IsSound (revoke_if (of_subject subject) now) (λ j r. ground arith) (λ h r. ground arith)
      (λ f r. ground arith) (λ r e. ground arith) (λ r e. ground arith) t v

-- Whatever a logout meets, the table of refresh tokens keeps its rules.
pub logout_handler-IsSound :
    (up : Bool) (now : DateTime) (state : GatewayState) (claims : Claims) (t : Table)
    → IsSound t
    → IsSound (logout_handler up now state claims t).0
unfolding logout_handler
logout_handler-IsSound up now state claims t v =
    ground (arith, revoke_subject-IsSound now (as_uuid claims.sub) t v)

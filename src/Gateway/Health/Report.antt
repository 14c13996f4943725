-- ===== src/Gateway/Health/Report.antt =====
-- What the gateway's health report says: gateway/src/gateway.rs, `health_handler`.
use rust_web_fullstack.Prelude.{
  true, false, not, List, [], ◌∷◌, map, keep, any, All, ◌≡◌, refl, ◌↔◌, ◌⊎◌, arith,
}
use rust_web_fullstack.Gateway.State.{GatewayState, ServiceModule, passed}
use rust_web_fullstack.Gateway.Health.{
  DbProbe, answered, is_healthy, service_report, health_handler,
}

-- A module that is disabled, or whose probe passed in time.
abbrev pub IsFine : ServiceModule → Type 0
IsFine m = (m.enabled ≡ false) ⊎ (m.health_check ≡ passed)

services-IsFine :
    (modules : List ServiceModule)
    → (any (λ r. not (is_healthy r.status)) (map service_report (keep (λ m. m.enabled) modules))
        ≡ false)
      ↔ All IsFine modules
unfolding service_report
services-IsFine [] = (λ e. tt, λ a. refl)
services-IsFine (m ∷ ms) = ground (arith, services-IsFine ms)

-- The status is 200 exactly when a pool is configured, the database answered 1 in time, and every
-- enabled module's probe passed in time.
pub health_handler-eq-200_iff :
    (state : GatewayState) (probe : DbProbe)
    → ((health_handler state probe).0 ≡ 200)
      ↔ ((state.db_pool ≡ true) × (probe ≡ answered 1) × All IsFine state.modules)
unfolding health_handler
health_handler-eq-200_iff state probe =
    let fine = services-IsFine state.modules in ground (arith, fine)

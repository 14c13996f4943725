-- ===== src/Gateway/Health.antt =====
-- `health_handler` of gateway/src/gateway.rs: each probe runs under the five-second limit.
pub mod Report
use rust_web_fullstack.Prelude.{
  ℕ, Bool, true, false, not, ◌||◌, ◌==◌, String, List, map, keep, any, if◌then◌else◌,
}
use rust_web_fullstack.Gateway.State.{
  GatewayState, ServiceModule, Probe, passed, unavailable, timed_out,
}

-- How `SELECT 1` under the limit ends.
pub data DbProbe : Type 0 where
  answered : ℕ → DbProbe
  query_failed no_answer : DbProbe

pub data Status : Type 0 where
  healthy unhealthy not_configured : Status

pub record ServiceReport : Type 0 where
  pub name : String
  pub path : String
  pub enabled : Bool
  pub status : Status

pub record HealthReport : Type 0 where
  pub degraded : Bool
  pub database : Status
  pub services : List ServiceReport

probe_status : Probe → Status
probe_status passed = healthy
probe_status unavailable = unhealthy
probe_status timed_out = unhealthy

abbrev is_healthy : Status → Bool
is_healthy healthy = true
is_healthy s = false

unfoldable pub service_report : ServiceModule → ServiceReport
unfolding probe_status
service_report m = record {
  name = m.name;
  path = m.path;
  enabled = m.enabled;
  status = probe_status m.health_check;
}

unfoldable pub database_status : Bool → DbProbe → Status
database_status false probe = not_configured
database_status true (answered n) = if n == 1 then healthy else unhealthy
database_status true query_failed = unhealthy
database_status true no_answer = unhealthy

-- The HTTP status and the body.
unfoldable pub health_handler : GatewayState → DbProbe → ℕ × HealthReport
unfolding database_status
health_handler state probe =
    let services = map service_report (keep (λ m. m.enabled) state.modules) in
    let database = database_status state.db_pool probe in
    let any_unhealthy =
      any (λ r. not (is_healthy r.status)) services || not (is_healthy database) in
    (
      if any_unhealthy then 503 else 200,
      record { degraded = any_unhealthy; database = database; services = services },
    )

-- ===== src/Gateway.antt =====
-- The gateway outside authentication: its state, its construction, its health report, its CORS
-- layer, session routes, events and proxy service, and the encoding of its development keys.
-- gateway/src.
mod Tests
mod RouteTests
mod RouterTests
mod MainTests
pub mod State
pub mod Build
pub mod Main
pub mod Routes
pub mod Cors
pub mod SessionRoutes
pub mod Events
pub mod Proxy
pub mod Health
pub mod Pem

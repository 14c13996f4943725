-- ===== src/Auth.antt =====
-- gateway/src/auth: JWTs, rotating refresh tokens, the login, refresh and logout handlers, the
-- Bearer middleware, and the errors that they answer with.
pub mod Error
pub mod Tests
pub mod HandlerTests
pub mod MiddlewareTests
mod HistoryTests
mod RenewalTests
pub mod Store
pub mod Refresh
pub mod Jwt
pub mod Session
pub mod Handlers
pub mod Middleware
pub mod History

-- ===== src/Lib.antt =====
-- A model of the Rust services of this repository, with the theorems that make it correct.
--
-- The repository holds a gateway (gateway/), which authenticates one administrator and issues JWTs
-- with rotating refresh tokens; a live search (live-search/), which answers queries over PostgreSQL
-- through a versioned cache and streams new rows to its subscribers; a chat demo (i18n-demo/); and
-- the crates that they share (crates/config, crates/domain). The gateway's `main` loads a
-- configuration, builds the state that its handlers share, and mounts the handlers; login, refresh
-- and logout change the table of refresh tokens and the request's session; the middleware stands
-- before the protected routes. In the live search the listener turns notifications of the database
-- into events, and bumps the version of the cache that the search function reads and fills.
--
-- Files and what they model:
--   Prelude: Boolean tests, lists over native numbers, results, code points and integers.
--   Domain: crates/domain/src/lib.rs (`UserId`, `SearchResult`).
--   Config: crates/config/src/lib.rs; Config/Load is `Config::load` with `load_from`.
--   Settings: gateway/src/settings.rs (`Settings`, `apply_runtime_config`); Settings/Load is its
--     loading from the environment, and the keys for development.
--   Gateway: gateway/src/gateway.rs, module.rs and main.rs (State, Build, Main, Health), pem.rs (Pem),
--     cors.rs (Cors), session.rs and `csrf_token_handler` (SessionRoutes), sse.rs (Events),
--     services/proxy.rs (Proxy) and `build_gateway_with_settings` (Routes).
--   Auth: gateway/src/auth. Store is the table of migrations/100 and 101 with the SQL statements
--     that the code runs on it; Refresh is refresh.rs, Jwt jwt.rs, Handlers handlers.rs, Middleware
--     middleware.rs, Error error.rs; Session is the interface of tower-sessions. Refresh/View is an
--     abstract view of the table, which `rotate` refines, and History the runs of any requests.
--   LiveSearch: live-search/src. Cache is cache.rs, Search the function `search` of app.rs, Listener
--     `run_pg_listener` of db.rs, Cursor `search_with_cursor` and the cursors of db.rs, Events and
--     Feed events.rs, sse.rs and `apply_sse_event` of app.rs, Feed/Reconnect the loops of the live
--     feed in app.rs, SearchPage the page of that name, System many requests at once, Shutdown
--     shutdown.rs, Bootstrap bootstrap.rs with `set` of state.rs, Main main.rs.
--   Chat: i18n-demo/src/ws_chat.rs.
--   SharedServer: e2e-tests/src/common/once.rs, the start of a server that concurrent tests share.
--   TestServers: e2e-tests/src. Poll holds the waits of common/chromium.rs, Browser the rest of it
--     with lib.rs, Envs the databases and servers of common/db.rs, gateway_env.rs and
--     live_search_env.rs.
-- A child module named for a property (Refresh/Integrity, Listener/Delivery) holds its proofs; a
-- module whose name ends in Tests (HandlerTests, RouteTests, FeedTests) holds concrete runs.
--
-- How state and operations correspond: a function of the model has the name of the function of the
-- code, or names a part of it in its comment. State is passed explicitly: a handler takes the table
-- and the session and returns them with its answer. Errors are values of `Result`; a panic of a
-- library is `panicked`. What the code meets outside (the time, random bytes, new UUIDs, whether a
-- statement is carried out) is an argument. A transaction of `rotate` is one step, since FOR UPDATE
-- holds the row. The listener is a machine over what its awaits return; the pages of a replay are
-- steps of their own.
--
-- Libraries are parameters: SHA-256, base64, chrono's addition, jsonwebtoken, tower-sessions, moka,
-- the config crate, UUID parsing, JSON, and the text forms of numbers. Where a theorem relies on
-- their documented behaviour this is a hypothesis, and a test instantiates it.
--
-- Bounds: an i64 or u64 that can leave its range has the test for it, or the wrap-around, written
-- out; other numbers are natural. The loop of `pem_encode` runs on as much fuel as the text has
-- characters, and each round takes one at least. A wait of the test servers runs on as many rounds
-- as its timeout has intervals, and two, which is enough on a clock that advances by the interval in
-- each round. The version of the cache wraps at 2 ^ 64.
--
-- Not modelled: how axum runs layers and how rate limits count, the search and monitor services,
-- which answer with constants, the router of the live search, telemetry, OpenAPI, the Leptos views,
-- the end-to-end tests themselves, benches, and third-party code.
pub mod Prelude
pub mod Domain
pub mod Config
pub mod Settings
pub mod Gateway
pub mod Auth
pub mod LiveSearch
pub mod Chat
pub mod SharedServer
pub mod TestServers

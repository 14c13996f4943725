-- ===== src/TestServers.antt =====
-- e2e-tests/src: the helpers that start servers and browsers for the tests of the repository.
mod Tests
pub mod Poll
pub mod Envs
pub mod Browser

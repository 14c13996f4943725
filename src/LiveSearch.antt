-- ===== src/LiveSearch.antt =====
-- The live-search service: live-search/src.
mod Tests
mod FeedTests
mod BootTests
pub mod Events
pub mod Cache
pub mod Search
pub mod Listener
pub mod Cursor
pub mod Feed
pub mod Shutdown
pub mod SearchPage
pub mod System
pub mod Bootstrap
pub mod Main

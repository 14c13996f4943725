-- ===== src/LiveSearch/Events.antt =====
-- live-search/src/events.rs: the events of the live stream, and live-search/src/sse.rs: the name
-- under which each is sent.
use rust_web_fullstack.Prelude.{ℕ, String, Text}
use rust_web_fullstack.Domain.{DateTime}

pub data SseEvent : Type 0 where
  connected : DateTime → SseEvent
  search_result : Text → Text → Text → SseEvent
  stream_lagged : ℕ → SseEvent

-- The name of `event_to_sse`.
unfoldable pub event_name : SseEvent → String
event_name (connected server_time) = "connected"
event_name (search_result title url snippet) = "search_result"
event_name (stream_lagged skipped) = "stream_lagged"

-- ===== src/LiveSearch/Feed.antt =====
-- What a subscriber of the live stream is sent, live-search/src/sse.rs, and what the page does with
-- it, live-search/src/app.rs.
pub mod Window
pub mod Reconnect
use rust_web_fullstack.Prelude.{
  ℕ, ◌-◌, Bool, true, false, leb, Text, String, List, [], ◌∷◌, ◌++◌, map, drop, length, Result, ok,
  err, if◌then◌else◌,
}
use rust_web_fullstack.Domain.{DateTime}
use rust_web_fullstack.LiveSearch.Events.{
  SseEvent, connected, search_result, stream_lagged, event_name,
}

pub record LiveResult : Type 0 where
  pub title : Text
  pub url : Text
  pub snippet : Text

-- An item of `BroadcastStream`: an event, or the number of events that were skipped.
abbrev pub Received : Type 0
Received = Result SseEvent ℕ

unfoldable pub forwarded : Received → SseEvent
forwarded (ok event) = event
forwarded (err skipped) = stream_lagged skipped

-- The stream of `sse_handler`: the greeting, then one event for each item.
unfoldable pub sse_handler : DateTime → List Received → List SseEvent
unfolding forwarded
sse_handler now items = connected now ∷ map forwarded items

pub record Page : Type 0 where
  pub results : List LiveResult
  pub is_connected : Bool

unfoldable pub push_result : LiveResult → List LiveResult → List LiveResult
push_result item items =
    let kept = if leb 200 (length items) then drop 1 items else items in kept ++ item ∷ []

unfoldable pub apply_sse_event : SseEvent → Page → Page
unfolding push_result
apply_sse_event (connected server_time) page = record page { is_connected = true }
apply_sse_event (search_result title url snippet) page = record page {
  results = push_result (record { title = title; url = url; snippet = snippet }) page.results;
}
apply_sse_event (stream_lagged skipped) page = page

unfoldable pub apply_all : List SseEvent → Page → Page
unfolding apply_sse_event
apply_all [] page = page
apply_all (e ∷ es) page = apply_all es (apply_sse_event e page)

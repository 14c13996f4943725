-- ===== src/LiveSearch/Feed/Reconnect.antt =====
-- live-search/src/app.rs: `consume_event_source` and `run_live_feed`, on what their awaits and
-- their looks at the stop flag give. Parsing a message is a parameter. The sleeps are left out.
pub mod Seen
use rust_web_fullstack.Prelude.{
  Bool, true, false, not, ◌&&◌, Text, Option, none, some, List, [], ◌∷◌, if◌then◌else◌,
}
use rust_web_fullstack.LiveSearch.Events.{SseEvent}
use rust_web_fullstack.LiveSearch.Feed.{Page, apply_sse_event}

pub data ReadyState : Type 0 where
  state_connecting state_open state_closed : ReadyState

-- One look at the event source and at the stop flag.
pub record Poll : Type 0 where
  pub state : ReadyState
  pub stop : Bool

-- A message, with its data if that is a string; or an error of the stream.
pub data Item : Type 0 where
  message : Option Text → Item
  stream_error : Item

-- An item, and the stop flag when it is read.
pub record Arrival : Type 0 where
  pub stop : Bool
  pub item : Item

-- What a turn of the loop does with an item.
pub data Turn : Type 0 where
  ends skips : Turn
  applies : SseEvent → Turn

-- An event source: whether the three subscriptions succeed, what the waiting loop sees, and the
-- items until the stream ends.
pub record Connection : Type 0 where
  pub subscribes : Bool
  pub polls : List Poll
  pub arrivals : List Arrival

-- One round of `run_live_feed`: the stop flag before and after, and the event source, if it can be
-- created.
pub record Round : Type 0 where
  pub stop_before : Bool
  pub source : Option Connection
  pub stop_after : Bool

abbrev pub is_connecting : ReadyState → Bool
is_connecting state_connecting = true
is_connecting s = false

abbrev pub is_open : ReadyState → Bool
is_open state_open = true
is_open s = false

-- The look that ends the waiting; `none` where it goes on.
unfoldable pub waited : List Poll → Option Poll
waited [] = none
waited (p ∷ ps) = if is_connecting p.state && not p.stop then waited ps else some p

module _ (parse : Text → Option SseEvent) where
  -- One turn of the loop over the items.
  unfoldable pub turn : Arrival → Turn
  turn a = if a.stop then ends else elim a.item [
    | stream_error ↦ ends
    | message none ↦ skips
    | message (some data_text) ↦ elim (parse data_text) [
      | none ↦ skips
      | some event ↦ applies event
    ]
  ]

  unfoldable pub read : List Arrival → Page → Page
  unfolding turn
  read [] page = page
  read (a ∷ rest) page = elim (turn a) [
    | ends ↦ page
    | skips ↦ read rest page
    | applies event ↦ read rest (apply_sse_event event page)
  ]

  -- `none` while it waits for the source to open.
  unfoldable pub consume_event_source : Connection → Page → Option Page
  unfolding waited read
  consume_event_source c page = if not c.subscribes then some page else elim (waited c.polls) [
    | none ↦ none
    | some p ↦
        if p.stop then some page else some (if is_open p.state then read c.arrivals page else page)
  ]

  -- The match of a round.
  attempt : Option Connection → Page → Option Page
  unfolding consume_event_source
  attempt none page = some page
  attempt (some c) page = elim (consume_event_source c page) [
    | none ↦ none
    | some left ↦ some (record left { is_connected = false })
  ]

  unfoldable pub run_live_feed : List Round → Page → Page
  unfolding attempt
  run_live_feed [] page = page
  run_live_feed (r ∷ rs) page = if r.stop_before then page else elim (attempt r.source page) [
    | none ↦ page
    | some left ↦ if r.stop_after then left else run_live_feed rs left
  ]

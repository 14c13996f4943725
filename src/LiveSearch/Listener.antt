-- ===== src/LiveSearch/Listener.antt =====
-- `run_pg_listener` of live-search/src/db.rs as a machine that is given, one at a time, what its
-- awaits return: each page of the reconnect replay is a step, since rows are committed meanwhile.
-- Parsing a payload is serde_json's, an argument. A cursor is an `event_seq`, which starts at 1.
pub mod Timing
pub mod Delivery
pub mod Replay
pub mod Missed
use rust_web_fullstack.Prelude.{
  ℕ, ◌+◌, ◌*◌, Bool, true, false, ◌==◌, ltb, leb, min, length, take, keep, Text, Option, none, some,
  List, [], ◌∷◌, ◌++◌, map, Result, ok, err, if◌then◌else◌, bind_option,
}
use rust_web_fullstack.Domain.{Uuid}
use rust_web_fullstack.LiveSearch.Events.{SseEvent, search_result}
use rust_web_fullstack.LiveSearch.Cache.{CacheHandle, invalidate_all}

pub record NotificationRow : Type 0 where
  pub id : Uuid
  pub title : Text
  pub url : Text
  pub snippet : Text
  pub event_seq : ℕ

-- `search_results` in the order of its index on event_seq.
abbrev pub Rows : Type 0
Rows = List NotificationRow

abbrev pub resync_batch_size : ℕ
resync_batch_size = 100

abbrev pub backoff_floor_ms : ℕ
backoff_floor_ms = 250

abbrev pub max_backoff_ms : ℕ
max_backoff_ms = 30_000

-- SELECT … WHERE event_seq > $1 ORDER BY event_seq ASC LIMIT $2
unfoldable pub newer_than : ℕ → Rows → Rows
newer_than cursor = keep (λ r. ltb cursor r.event_seq)

unfoldable pub select_page : ℕ → Rows → Rows
unfolding newer_than
select_page cursor t = take resync_batch_size (newer_than cursor t)

-- SELECT … WHERE id = $1
unfoldable pub find_by_id : Uuid → Rows → Option NotificationRow
find_by_id id [] = none
find_by_id id (r ∷ t) = if r.id == id then some r else find_by_id id t

unfoldable pub last_seq : ℕ → Rows → ℕ
last_seq cursor [] = cursor
last_seq cursor (r ∷ rows) = last_seq r.event_seq rows

-- What `broadcast_row` sends.
unfoldable pub event_of : NotificationRow → SseEvent
event_of r = search_result r.title r.url r.snippet

-- Where the task waits: for a connection, in a backoff sleep, for a page of the replay (with its
-- cursor and whether a row was replayed), for a notification; or it has returned.
pub data Phase : Type 0 where
  connecting sleeping listening stopped : Phase
  replaying : ℕ → Bool → Phase

-- `sent` holds the rows that were broadcast, in order.
pub record Listener (C : Type 0) : Type 0 where
  pub phase : Phase
  pub cancelled : Bool
  pub backoff_ms : ℕ
  pub last_seen_seq : ℕ
  pub sent : Rows
  pub cache : CacheHandle C

pub data Input : Type 0 where
  connects refuses wakes breaks cancels : Input
  -- The page's query fails, or sees this table.
  page : Result Rows (Unit {0}) → Input
  -- A notification with its payload; the look-up of its row fails, or sees this table.
  notifies : Text → Result Rows (Unit {0}) → Input

unfoldable pub broadcast_row : {C : Type 0} → NotificationRow → Listener C → Listener C
broadcast_row r s = record s { sent = s.sent ++ r ∷ [] }

module _ {C : Type 0} where
  unfoldable pub start : CacheHandle C → Listener C
  start cache = record {
    phase = connecting;
    cancelled = false;
    backoff_ms = backoff_floor_ms;
    last_seen_seq = 0;
    sent = [];
    cache = cache;
  }

  -- The head of the outer loop, and of the inner one, with `biased` on the token.
  enter : Phase → Listener C → Listener C
  enter p s = record s { phase = if s.cancelled then stopped else p }

  -- `sleep_or_shutdown` returns at once when the token is already cancelled.
  sleep : Listener C → Listener C
  unfolding enter
  sleep s = enter sleeping s

  wake : Listener C → Listener C
  unfolding enter
  wake s = enter connecting (record s { backoff_ms = min (s.backoff_ms * 2) max_backoff_ms })

  -- The end of `resync_after_reconnect` and the assignment of its result.
  finish_replay : ℕ → Bool → Listener C → Listener C
  unfolding enter
  finish_replay cursor replayed_any s = enter listening (record s {
    last_seen_seq = cursor;
    cache = if replayed_any then invalidate_all s.cache else s.cache;
  })

  -- One round of the loop of `resync_after_reconnect`.
  replay_page : ℕ → Bool → Rows → Listener C → Listener C
  unfolding finish_replay
  replay_page cursor replayed_any rows s =
      let t = record s { sent = s.sent ++ rows } in
      let replayed = if leb 1 (length rows) then true else replayed_any in
      if ltb (length rows) resync_batch_size
      then finish_replay (last_seq cursor rows) replayed t
      else record t { phase = replaying (last_seq cursor rows) replayed }

  -- `forward_notification` and what the loop does with its result.
  forward_row : Option NotificationRow → Listener C → Listener C
  unfolding broadcast_row
  forward_row none s = s
  forward_row (some r) s =
      if leb r.event_seq s.last_seen_seq then s else record (broadcast_row r s) {
        last_seen_seq = r.event_seq;
        cache = invalidate_all s.cache;
      }

  forward_notification : Option Uuid → Result Rows (Unit {0}) → Listener C → Listener C
  unfolding forward_row
  forward_notification none found s = s
  forward_notification (some id) (err e) s = s
  forward_notification (some id) (ok t) s = forward_row (find_by_id id t) s

  module _ (parse_payload : Text → Option Uuid) where
    at_phase : Phase → Input → Listener C → Listener C
    unfolding enter sleep wake replay_page forward_notification finish_replay
    at_phase connecting connects s = record s {
      phase = replaying s.last_seen_seq false;
      backoff_ms = backoff_floor_ms;
    }
    at_phase connecting refuses s = sleep s
    at_phase sleeping wakes s = wake s
    at_phase (replaying cursor any) (page (ok t)) s =
        replay_page cursor any (select_page cursor t) s
    at_phase (replaying cursor any) (page (err e)) s = enter listening s
    at_phase listening (notifies payload found) s =
        forward_notification (parse_payload payload) found
          (record s { backoff_ms = backoff_floor_ms })
    at_phase listening breaks s = sleep s
    at_phase listening cancels s = record s { cancelled = true; phase = stopped }
    at_phase sleeping cancels s = record s { cancelled = true; phase = stopped }
    at_phase p cancels s = record s { cancelled = true }
    -- Any other input cannot come in this phase.
    at_phase p i s = s

    unfoldable pub step : Input → Listener C → Listener C
    unfolding at_phase
    step i s = at_phase s.phase i s

    unfoldable pub run : List Input → Listener C → Listener C
    unfolding step
    run [] s = s
    run (i ∷ is) s = run is (step i s)

-- ===== src/LiveSearch/FeedTests.antt =====
-- A page that loses its connection, of live-search/src/app.rs.
use rust_web_fullstack.Prelude.{
  true, false, Text, codes, Option, none, some, [], ◌∷◌, ◌++◌, ◌≡◌, refl,
}
use rust_web_fullstack.LiveSearch.Events.{SseEvent, search_result}
use rust_web_fullstack.LiveSearch.Feed.Window.{results_of}
use rust_web_fullstack.LiveSearch.Feed.Reconnect.{
  state_connecting, state_open, message, stream_error, Round, run_live_feed,
}
use rust_web_fullstack.LiveSearch.Feed.Reconnect.Seen.{seen, shown, run_live_feed-shows}

abbrev parse : Text → Option SseEvent
parse s = some (search_result s s s)

-- A round whose stream brings one result and then fails.
abbrev round : Text → Round
round title = record {
  stop_before = false;
  source = some (record {
    subscribes = true;
    polls =
        record { state = state_connecting; stop = false }
        ∷ record { state = state_open; stop = false }
        ∷ [];
    arrivals =
        record { stop = false; item = message none }
        ∷ record { stop = false; item = message (some title) }
        ∷ record { stop = false; item = stream_error }
        ∷ [];
  });
  stop_after = false;
}

run_live_feed-shows_example :
    run_live_feed parse (round (codes "a") ∷ round (codes "b") ∷ []) (shown [])
    ≡ shown ([] ++ results_of (seen parse (round (codes "a") ∷ round (codes "b") ∷ [])))
run_live_feed-shows_example =
    run_live_feed-shows parse (round (codes "a") ∷ round (codes "b") ∷ []) [] (shown []) refl

-- ===== src/LiveSearch/Feed/Reconnect/Seen.antt =====
-- What the page shows after any number of connections: live-search/src/app.rs.
use rust_web_fullstack.Prelude.{
  Bool, true, false, not, ◌&&◌, ◌||◌, ◌⊎◌, Text, Option, none, some, List, [], ◌∷◌, ◌++◌,
  if◌then◌else◌, ◌≡◌, refl, sym, ap, ◌∙◌, arith, inl, inr, Bool-cases, Option-cases, append-nil,
  append_assoc,
}
use rust_web_fullstack.LiveSearch.Events.{SseEvent, connected, search_result, stream_lagged}
use rust_web_fullstack.LiveSearch.Feed.{LiveResult, Page, apply_sse_event, apply_all}
use rust_web_fullstack.LiveSearch.Feed.Window.{results_of, last_200, apply_all-shows}
use rust_web_fullstack.LiveSearch.Feed.Reconnect.{
  ReadyState, state_connecting, state_open, state_closed, Poll, Item, message, stream_error,
  Arrival, Connection, Round, turn, is_open, waited, read, consume_event_source, attempt,
  run_live_feed,
}

results_of-append : (es fs : List SseEvent) → results_of (es ++ fs) ≡ results_of es ++ results_of fs
results_of-append [] fs = refl
results_of-append (search_result title url snippet ∷ es) fs =
    ap (◌∷◌ (record { title = title; url = url; snippet = snippet })) (results_of-append es fs)
results_of-append (connected t ∷ es) fs = results_of-append es fs
results_of-append (stream_lagged n ∷ es) fs = results_of-append es fs

-- A page that is not connected, and shows the last of these results.
abbrev pub shown : List LiveResult → Page
shown sent = record { results = last_200 sent; is_connected = false }

-- The items up to the first one that finds the stop flag set or is an error of the stream.
abbrev pub taken : List Arrival → List Item
taken [] = []
taken (a ∷ rest) =
    if a.stop
    then []
    else elim a.item [ stream_error ↦ [] | message data_text ↦ message data_text ∷ taken rest ]

-- The data of the messages, where that is a string.
abbrev pub data_texts : List Item → List Text
data_texts [] = []
data_texts (message (some data_text) ∷ rest) = data_text ∷ data_texts rest
data_texts (message none ∷ rest) = data_texts rest
data_texts (stream_error ∷ rest) = data_texts rest

-- The texts that are an event of the server, as events.
abbrev pub parsed : (Text → Option SseEvent) → List Text → List SseEvent
parsed parse [] = []
parsed parse (t ∷ ts) = elim (parse t) [ none ↦ parsed parse ts | some e ↦ e ∷ parsed parse ts ]

-- The first look at which the source is no longer connecting or the stop flag is set.
abbrev pub first_settled : List Poll → Option Poll
first_settled [] = none
first_settled (p ∷ ps) = if p.stop then some p else elim p.state [
  | state_open ↦ some p
  | state_closed ↦ some p
  | state_connecting ↦ first_settled ps
]

abbrev pub opened : ReadyState → Bool
opened state_open = true
opened state_connecting = false
opened state_closed = false

is_open-opened : (s : ReadyState) → is_open s ≡ opened s
is_open-opened state_open = refl
is_open-opened state_connecting = refl
is_open-opened state_closed = refl

waited-first_settled : (polls : List Poll) → waited polls ≡ first_settled polls
unfolding waited
waited-first_settled [] = refl
waited-first_settled (p ∷ ps) = by_state (waited-first_settled ps) p.state refl
  where
    by_state :
        waited ps ≡ first_settled ps
        → (s : ReadyState) → p.state ≡ s
        → waited (p ∷ ps) ≡ first_settled (p ∷ ps)
    by_state h state_open e = ground (arith, e)
    by_state h state_closed e = ground (arith, e)
    by_state h state_connecting e = ground (arith, e, h)

module _ (parse : Text → Option SseEvent) where
  -- The events that are read from the items of a connection.
  pub events_of : List Arrival → List SseEvent
  events_of arrivals = parsed parse (data_texts (taken arrivals))

  -- A connection that is read: subscribed to, and at the first look that ends the waiting it is
  -- open and no stop is seen.
  abbrev pub is_read : Connection → Bool
  is_read c =
      c.subscribes
      && elim (first_settled c.polls) [ none ↦ false | some p ↦ not p.stop && opened p.state ]

  abbrev pub seen_of : Option Connection → List SseEvent
  seen_of none = []
  seen_of (some c) = if is_read c then events_of c.arrivals else []

  -- Whether the waiting for a source goes on.
  abbrev pub still_waits : Option Connection → Bool
  still_waits none = false
  still_waits (some c) =
      c.subscribes && elim (first_settled c.polls) [ none ↦ true | some p ↦ false ]

  -- The events of all connections, in their order.
  pub seen : List Round → List SseEvent
  seen [] = []
  seen (r ∷ rs) =
      if r.stop_before || still_waits r.source
      then []
      else seen_of r.source ++ (if r.stop_after then [] else seen rs)

  read-apply_all :
      (arrivals : List Arrival) (page : Page)
      → read parse arrivals page ≡ apply_all (events_of arrivals) page
  unfolding read turn apply_all events_of
  read-apply_all [] page = refl
  read-apply_all (a ∷ rest) page = elim (Bool-cases a.stop) [
    | inl stopped ↦ rw stopped refl
    | inr goes_on ↦ by_item goes_on (λ p. read-apply_all rest p) a.item refl
  ]
    where
      by_item :
          a.stop ≡ false
          → ((p : Page) → read parse rest p ≡ apply_all (events_of rest) p)
          → (i : Item) → a.item ≡ i
          → read parse (a ∷ rest) page ≡ apply_all (events_of (a ∷ rest)) page
      by_item g h stream_error e = rw (g, e) refl
      by_item g h (message none) e = rw (g, e) (h page)
      by_item g h (message (some t)) e = elim (Option-cases (parse t)) [
        | inl unread ↦ ground (arith, g, e, unread, h page)
        | inr (event, found) ↦ ground (arith, g, e, found, h (apply_sse_event event page))
      ]

  -- What an attempt leaves where it does not wait.
  attempt_lem :
      (source : Option Connection) (page : Page)
      → page.is_connected ≡ false
      → ((still_waits source ≡ true) × (attempt parse source page ≡ none))
        ⊎ ((still_waits source ≡ false)
            × (attempt parse source page
                ≡ some (record (apply_all (seen_of source) page) { is_connected = false })))
  unfolding attempt consume_event_source apply_all
  attempt_lem none page h = inr (refl, ground arith)
  attempt_lem (some c) page h = elim (Bool-cases c.subscribes) [
    | inr refused ↦ inr (ground arith, ground arith)
    | inl subscribed ↦
        let same = waited-first_settled c.polls in
        elim (Option-cases (first_settled c.polls)) [
          | inl waits ↦ inl (ground arith, ground arith)
          | inr (p, settled) ↦ elim (Bool-cases p.stop) [
            | inl stopped ↦ inr (ground arith, ground arith)
            | inr goes_on ↦
                let alike = is_open-opened p.state in
                elim (Bool-cases (opened p.state)) [
                  | inl up ↦ inr (ground arith, ground (arith, read-apply_all c.arrivals page))
                  | inr down ↦ inr (ground arith, ground arith)
                ]
          ]
        ]
  ]

  -- A page that is not connected and shows the last 200 of some results shows, after any rounds of
  -- connecting, reading and closing, the last 200 of these and of those that the connections
  -- brought, in their order, and says that it is not connected. A connection is read if it is
  -- subscribed to and is open, with no stop, at the first look at which it no longer connects or
  -- the stop flag is set; it brings the events of its items up to the first error of the stream or
  -- the first item at which the stop flag is set, and a message without a text, or with one that is
  -- no event, is passed over. Nothing is brought from a round on that finds the stop flag set at
  -- its start or goes on waiting for its source, nor after one that finds it set at its end.
  pub run_live_feed-shows :
      (rounds : List Round) (sent : List LiveResult) (page : Page)
      → page ≡ shown sent
      → run_live_feed parse rounds page ≡ shown (sent ++ results_of (seen rounds))
  unfolding run_live_feed seen
  run_live_feed-shows [] sent page h = h ∙ ap shown (sym (append-nil sent))
  run_live_feed-shows (r ∷ rs) sent page h =
      let idle : page ≡ shown (sent ++ []) = h ∙ ap shown (sym (append-nil sent)) in
      let left : Page = record (apply_all (seen_of r.source) page) { is_connected = false } in
      let after : left ≡ shown (sent ++ results_of (seen_of r.source)) =
        ap (λ rs. record { results = rs; is_connected = false })
          (apply_all-shows (seen_of r.source) sent page (ap (λ p. p.results) h)) in
      elim (Bool-cases r.stop_before) [
        | inl stopped ↦ rw stopped idle
        | inr started ↦ elim (attempt_lem r.source page (ap (λ p. p.is_connected) h)) [
          | inl (waits, e) ↦ rw (started, waits, e) idle
          | inr (goes_on, e) ↦ elim (Bool-cases r.stop_after) [
            | inl stopped ↦
                rw (started, goes_on, e, stopped)
                  (after
                    ∙ ap (λ es. shown (sent ++ results_of es))
                        (sym (append-nil (seen_of r.source))))
            | inr again ↦
                rw (started, goes_on, e, again)
                  (run_live_feed-shows rs (sent ++ results_of (seen_of r.source)) left after
                    ∙ ap shown (
                        append_assoc sent (results_of (seen_of r.source)) (results_of (seen rs))
                        ∙ ap (◌++◌ sent) (sym (results_of-append (seen_of r.source) (seen rs)))))
          ]
        ]
      ]

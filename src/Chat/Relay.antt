-- ===== src/Chat/Relay.antt =====
-- What one client sends and is sent: i18n-demo/src/ws_chat.rs, `handle_socket`.
use rust_web_fullstack.Prelude.{
  ◌≤◌, Bool, true, false, ltb, ◌==◌, not, List, [], ◌∷◌, ◌++◌, ◌≡◌, ◌≢◌, arith, inl, inr,
  Bool-cases, if◌then◌else◌, All, All-append,
}
use rust_web_fullstack.Domain.{Uuid}
use rust_web_fullstack.Chat.{
  ChatEvent, byte_len, Incoming, stream_closed, recv_error, non_text, text_frame, Broadcast,
  received, lagged, hub_closed, Input, incoming, broadcast, Client, on_incoming, on_broadcast,
  round, handle_socket,
}

-- What holds of a client at any time.
pub record IsRelay (from : Uuid) (c : Client) : Type 0 where
  pub same : c.from ≡ from
  pub own : All (λ e. (e.from ≡ from) × (byte_len e.text ≤ 1024)) c.published
  pub foreign : All (λ e. e.from ≢ from) c.delivered

on_incoming-IsRelay :
    (from : Uuid) (i : Incoming) (c : Client) → IsRelay from c → IsRelay from (on_incoming i c)
unfolding on_incoming
on_incoming-IsRelay from stream_closed c r = record {
  same = r.same;
  own = r.own;
  foreign = r.foreign;
}
on_incoming-IsRelay from recv_error c r = record { same = r.same; own = r.own; foreign = r.foreign }
on_incoming-IsRelay from non_text c r = r
on_incoming-IsRelay from (text_frame text id at) c r =
    elim (Bool-cases (ltb 1024 (byte_len text))) [
      | inl over ↦ rw over r
      | inr fits ↦ rw fits (record {
        same = r.same;
        own = All-append _ c.published _ r.own ((r.same, ground arith), tt);
        foreign = r.foreign;
      })
    ]

deliver :
    (from : Uuid) (event : ChatEvent) (serializes accepted : Bool) (c : Client)
    → IsRelay from c
    → event.from ≢ from
    → IsRelay from (
        if not serializes
        then c
        else if accepted
        then record c { delivered = c.delivered ++ event ∷ [] }
        else record c { is_open = false })
deliver from event false a c r d = r
deliver from event true true c r d = record {
  same = r.same;
  own = r.own;
  foreign = All-append _ c.delivered _ r.foreign (d, tt);
}
deliver from event true false c r d = record { same = r.same; own = r.own; foreign = r.foreign }

on_broadcast-IsRelay :
    (from : Uuid) (b : Broadcast) (c : Client) → IsRelay from c → IsRelay from (on_broadcast b c)
unfolding on_broadcast
on_broadcast-IsRelay from (received event s a) c r = elim (Bool-cases (event.from == c.from)) [
  | inl mine ↦ rw mine r
  | inr other ↦
      let differs : event.from ≢ from = ground (arith, r.same) in
      rw other (deliver from event s a c r differs)
]
on_broadcast-IsRelay from (lagged n) c r = r
on_broadcast-IsRelay from hub_closed c r = record {
  same = r.same;
  own = r.own;
  foreign = r.foreign;
}

while_open :
    (from : Uuid) (b : Bool) (c d : Client)
    → IsRelay from c
    → IsRelay from d
    → IsRelay from (if b then d else c)
while_open from true c d r q = q
while_open from false c d r q = r

round-IsRelay : (from : Uuid) (i : Input) (c : Client) → IsRelay from c → IsRelay from (round i c)
unfolding round
round-IsRelay from (incoming i) c r =
    while_open from c.is_open c (on_incoming i c) r (on_incoming-IsRelay from i c r)
round-IsRelay from (broadcast b) c r =
    while_open from c.is_open c (on_broadcast b c) r (on_broadcast-IsRelay from b c r)

-- Whatever a client sends and the hub broadcasts, in any order, everything that the client's socket
-- publishes bears its own id and at most 1024 bytes of text, and nothing that it delivers to the
-- client bears the client's id.
pub handle_socket-IsRelay :
    (from : Uuid) (is : List Input) (c : Client)
    → IsRelay from c
    → IsRelay from (handle_socket is c)
unfolding handle_socket
handle_socket-IsRelay from [] c r = r
handle_socket-IsRelay from (i ∷ is) c r =
    handle_socket-IsRelay from is (round i c) (round-IsRelay from i c r)

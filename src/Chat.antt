-- ===== src/Chat.antt =====
-- i18n-demo/src/ws_chat.rs: the same-origin check of the upgrade, and the loop of one client's
-- socket. WebSocket and the broadcast channel are axum's and tokio's: what the loop's `select!`
-- gives is an input, and what it sends to the hub and to its socket is kept in order.
mod Tests
pub mod Origin
pub mod Relay
use rust_web_fullstack.Prelude.{
  ℕ, ◌+◌, Bool, true, false, ltb, leb, ◌==◌, ◌&&◌, ◌||◌, not, Text, codes, text_eq, is_empty,
  strip_prefix, Option, none, some, List, [], ◌∷◌, ◌++◌, map, Result, ok, err, if◌then◌else◌,
}
use rust_web_fullstack.Domain.{Uuid, DateTime}

pub record ChatEvent : Type 0 where
  pub id : Uuid
  pub from : Uuid
  pub at : DateTime
  pub text : Text

abbrev pub max_text_bytes : ℕ
max_text_bytes = 1024

-- `str::len`: the bytes of the UTF-8 form.
unfoldable pub byte_len : Text → ℕ
byte_len [] = 0
byte_len (c ∷ s) =
    (if ltb c 0x80 then 1 else if ltb c 0x800 then 2 else if ltb c 0x10000 then 3 else 4)
    + byte_len s

-- `u8::to_ascii_lowercase` and `str::eq_ignore_ascii_case`.
to_ascii_lowercase : ℕ → ℕ
to_ascii_lowercase c = if leb 0x41 c && leb c 0x5a then c + 0x20 else c

unfoldable pub eq_ignore_ascii_case : Text → Text → Bool
unfolding to_ascii_lowercase
eq_ignore_ascii_case s t = text_eq (map to_ascii_lowercase s) (map to_ascii_lowercase t)

abbrev pub slash : ℕ
slash = 0x2f

-- `split('/').next()`
unfoldable pub before_slash : Text → Text
before_slash [] = []
before_slash (c ∷ s) = if c == slash then [] else c ∷ before_slash s

abbrev pub http : Text
http = codes "http://"

abbrev pub https : Text
https = codes "https://"

-- `Option::or_else`
or_else : Option Text → Option Text → Option Text
or_else (some s) later = some s
or_else none later = later

authority_matches : Option Text → Text → Bool
unfolding before_slash eq_ignore_ascii_case
authority_matches none host = false
authority_matches (some without_scheme) host =
    let authority = before_slash without_scheme in
    not (is_empty authority) && eq_ignore_ascii_case authority host

unfoldable pub origin_matches_host : Text → Text → Bool
unfolding or_else authority_matches
origin_matches_host origin host =
    authority_matches (or_else (strip_prefix http origin) (strip_prefix https origin)) host

-- The answer to an upgrade request.
pub data Upgrade : Type 0 where
  forbidden upgraded : Upgrade

-- A header that is there has a value that is text, or not (`to_str`).
abbrev pub Header : Type 0
Header = Option (Option Text)

check_host : Option Text → Header → Upgrade
unfolding origin_matches_host
check_host origin none = forbidden
check_host origin (some none) = forbidden
check_host none (some (some host)) = forbidden
check_host (some origin) (some (some host)) =
    if origin_matches_host origin host then upgraded else forbidden

unfoldable pub chat_handler : Header → Header → Upgrade
unfolding check_host
chat_handler none host = upgraded
chat_handler (some origin) host = check_host origin host

-- What the client's stream and the hub's receiver give.
pub data Incoming : Type 0 where
  stream_closed recv_error non_text : Incoming
  -- A text, with the id and the instant that `ChatEvent::new` would take.
  text_frame : Text → Uuid → DateTime → Incoming

pub data Broadcast : Type 0 where
  -- An event, whether it serializes, and whether the sink then accepts it.
  received : ChatEvent → Bool → Bool → Broadcast
  lagged : ℕ → Broadcast
  hub_closed : Broadcast

pub data Input : Type 0 where
  incoming : Incoming → Input
  broadcast : Broadcast → Input

-- `published` is what the client sent to the hub, `delivered` what its socket accepted.
pub record Client : Type 0 where
  pub from : Uuid
  pub is_open : Bool
  pub published : List ChatEvent
  pub delivered : List ChatEvent

unfoldable pub connect : Uuid → Client
connect from = record { from = from; is_open = true; published = []; delivered = [] }

on_incoming : Incoming → Client → Client
on_incoming stream_closed c = record c { is_open = false }
on_incoming recv_error c = record c { is_open = false }
on_incoming non_text c = c
on_incoming (text_frame text id at) c = if ltb max_text_bytes (byte_len text) then c else record c {
  published = c.published ++ record { id = id; from = c.from; at = at; text = text } ∷ [];
}

on_broadcast : Broadcast → Client → Client
on_broadcast (received event serializes accepted) c =
    if event.from == c.from
    then c
    else if not serializes
    then c
    else if accepted
    then record c { delivered = c.delivered ++ event ∷ [] }
    else record c { is_open = false }
on_broadcast (lagged skipped) c = c
on_broadcast hub_closed c = record c { is_open = false }

-- One round of the loop of `handle_socket`, which a closed client has left.
unfoldable pub round : Input → Client → Client
unfolding on_incoming on_broadcast
round (incoming i) c = if c.is_open then on_incoming i c else c
round (broadcast b) c = if c.is_open then on_broadcast b c else c

unfoldable pub handle_socket : List Input → Client → Client
unfolding round
handle_socket [] c = c
handle_socket (i ∷ is) c = handle_socket is (round i c)

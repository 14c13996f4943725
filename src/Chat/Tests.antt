-- ===== src/Chat/Tests.antt =====
-- A browser's upgrade and a short conversation, of i18n-demo/src/ws_chat.rs.
use rust_web_fullstack.Prelude.{
  true, false, Text, codes, some, List, [], ◌∷◌, ◌++◌, ◌≡◌, ◌↔◌, inl, refl,
}
use rust_web_fullstack.Prelude.Int.{pos}
use rust_web_fullstack.Chat.{
  http, eq_ignore_ascii_case, chat_handler, upgraded, Input, incoming, broadcast, text_frame,
  received, stream_closed, connect, handle_socket,
}
use rust_web_fullstack.Chat.Origin.{chat_handler_iff}
use rust_web_fullstack.Chat.Relay.{IsRelay, handle_socket-IsRelay}

chat_handler_iff_example :
    (chat_handler (some (some (http ++ codes "a:80" ++ []))) (some (some (codes "A:80")))
      ≡ upgraded)
    ↔ ((h : Text) × (some (some (codes "A:80")) ≡ some (some h))
        × (eq_ignore_ascii_case (codes "a:80") h ≡ true))
chat_handler_iff_example =
    chat_handler_iff false (codes "a:80") [] (some (some (codes "A:80"))) refl
      (refl, (refl, (refl, (refl, tt)))) (inl refl)

abbrev conversation : List Input
conversation =
    incoming (text_frame (codes "hi") 20 (pos 1))
    ∷ broadcast (received (record { id = 20; from = 1; at = pos 1; text = codes "hi" }) true true)
    ∷ broadcast
        (received (record { id = 21; from = 2; at = pos 2; text = codes "hello" }) true true)
    ∷ incoming stream_closed
    ∷ []

handle_socket-IsRelay_example : IsRelay 1 (handle_socket conversation (connect 1))
unfolding connect
handle_socket-IsRelay_example =
    handle_socket-IsRelay 1 conversation (connect 1)
      (record { same = refl; own = tt; foreign = tt })

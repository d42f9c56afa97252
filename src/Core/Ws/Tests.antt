-- ===== src/Core/Ws/Tests.antt =====
-- A websocket with a pong and a run of the timer before a text, and messages that are texts of one digit.
use mangle_apis.Base.{
  inl, inr, arith, ℕ, ◌+◌, ◌<◌, ◌≡◌, refl, Option, none, some, List, [], ◌∷◌, ◌++◌, All, replicate,
}
use mangle_apis.Base.Text.{Text, bytes}
use mangle_apis.Base.Outcome.{ok}
use mangle_apis.Messagist.Text.{got, refused, panicked, recv_message, send_message}
use mangle_apis.Core.Ws.{
  io_error, already_closed, Message, text, ping, pong, close_frame, Event, elapsed, arrived, ended,
  ManagedWebSocket, send, send_string, close, code, bad_payload, websocket_ping, match_event,
  recv_loop, recv_string, web_socket_stream, wait_for_error,
}
use mangle_apis.Core.Ws.Recv.{end_refused, text_returned, pings, IsQuiet, recv_string_lem}
use mangle_apis.Core.Ws.Wait.{wait_for_error_lem}
use mangle_apis.Core.Ws.Json.{recv_message-send_message}

abbrev quiet : List Event
quiet = arrived (pong (1 ∷ [])) ∷ elapsed ∷ []

quiet-IsQuiet : All IsQuiet quiet
quiet-IsQuiet = (tt, (tt, tt))

abbrev socket : ManagedWebSocket
socket = record {
  coming = quiet ++ arrived (text (bytes "7")) ∷ ended ∷ [];
  sends_left = 2;
  sent = [];
}

abbrev idle : ManagedWebSocket
idle = record { coming = []; sends_left = 2; sent = [] }

end_is_error : match_event ended ≡ some (refused already_closed)
unfolding match_event
end_is_error = refl

-- A ping of the peer is taken for impossible.
pinged : recv_string (record idle { coming = arrived (ping []) ∷ [] }) ≡ (idle, panicked)
unfolding recv_string recv_loop match_event
pinged = refl

closed_badly :
    close bad_payload (bytes "no") idle
    ≡ (record idle { sends_left = 1; sent = close_frame (some (1007, bytes "no")) ∷ [] }, ok tt)
unfolding close send code
closed_badly = refl

recv_string_example :
    ((left : ℕ)
      → 2 ≡ pings quiet + left
      → recv_string socket ≡ (
        record {
          coming = ended ∷ [];
          sends_left = left;
          sent = [] ++ replicate (pings quiet) websocket_ping;
        },
        got (bytes "7"),
      ))
    × (2 < pings quiet
        → ((recv_string socket).1 ≡ refused io_error)
          × ((recv_string socket).0.sent ≡ [] ++ replicate 2 websocket_ping))
recv_string_example =
    recv_string_lem socket quiet (arrived (text (bytes "7"))) (got (bytes "7")) (ended ∷ []) refl
      quiet-IsQuiet (text_returned (bytes "7"))

abbrev to_string : ℕ → Option Text
to_string n = some (n ∷ [])

abbrev from_str : Text → Option ℕ
from_str (n ∷ []) = some n
from_str _ = none

codec : (m : ℕ) (s : Text) → to_string m ≡ some s → from_str s ≡ some m
codec m s e = let same : s ≡ m ∷ [] = cc in rw same refl

five_sent :
    send_message to_string from_str web_socket_stream 5 idle
    ≡ (record idle { sends_left = 1; sent = text (5 ∷ []) ∷ [] }, ok tt)
unfolding send_message send_string send
five_sent = refl

recv_message-send_message_example :
    (frame : Message) × (text (5 ∷ []) ∷ [] ≡ [] ++ frame ∷ [])
    × ((to : ManagedWebSocket) (quiet rest : List Event) (left : ℕ)
        → to.coming ≡ quiet ++ arrived frame ∷ rest
        → All IsQuiet quiet
        → to.sends_left ≡ pings quiet + left
        → let (to', receipt) = recv_message to_string from_str web_socket_stream to in
          (receipt ≡ got 5) × (to'.coming ≡ rest))
recv_message-send_message_example =
    recv_message-send_message to_string from_str codec 5 idle
      (record idle { sends_left = 1; sent = text (5 ∷ []) ∷ [] }) five_sent

-- A pong, a run of the timer, a text, and the end of the connection.
abbrev passed : List Event
passed = quiet ++ arrived (text (bytes "7")) ∷ []

wait_for_error_example : wait_for_error 4 socket ≡ (
  record { coming = []; sends_left = 1; sent = [] ++ replicate 1 websocket_ping },
  got already_closed,
)
wait_for_error_example =
    wait_for_error_lem socket passed [] ended already_closed 1 4 refl
      (inl tt, (inl tt, (inr (bytes "7", refl), tt))) end_refused refl (omega arith)

-- ===== src/Core/Ws.antt =====
-- mangle-api-core/src/ws.rs: websockets that are pinged while nothing comes, as streams of texts. What
-- comes from the peer (axum's `WebSocket`) is a list, in which the runs of the ping timer have their
-- places; of what is sent it is given how often sending still succeeds.
mod Recv
mod Json
mod Wait
mod Tests
use mangle_apis.Base.{ℕ, zero, suc, Option, none, some, List, [], ◌∷◌, ◌++◌}
use mangle_apis.Base.Text.{Text, bytes}
use mangle_apis.Base.Outcome.{Outcome, ok, err}
use mangle_apis.Messagist.Text.{Receipt, got, refused, panicked, waiting, TextStreamApi}

pub data WsError : Type 0 where
  io_error : WsError
  already_closed : WsError
  not_a_string : List ℕ → WsError

pub data WebSocketCode : Type 0 where
  ok_code : WebSocketCode
  bad_payload : WebSocketCode
  internal_error : WebSocketCode

unfoldable pub code : WebSocketCode → ℕ
code ok_code = 1000
code bad_payload = 1007
code internal_error = 1011

-- `Message`, with the code and the reason of a close frame.
pub data Message : Type 0 where
  text : Text → Message
  binary : List ℕ → Message
  ping : List ℕ → Message
  pong : List ℕ → Message
  close_frame : Option (ℕ × Text) → Message

-- What `select!` sees next: the sleep of `ping_delay` is over, or `recv` has its result.
pub data Event : Type 0 where
  elapsed : Event
  arrived : Message → Event
  broken : Event
  ended : Event

pub record ManagedWebSocket : Type 0 where
  pub coming : List Event
  pub sends_left : ℕ
  pub sent : List Message

-- `WebSocket::send`.
unfoldable pub send : Message → ManagedWebSocket → ManagedWebSocket × Outcome WsError (Unit {0})
send message ws = elim ws.sends_left as (λ _. ManagedWebSocket × Outcome WsError (Unit {0})) [
  | zero ↦ (ws, err io_error)
  | suc n ↦ (record ws { sends_left = n; sent = ws.sent ++ message ∷ [] }, ok tt)
]

unfoldable pub close :
    WebSocketCode → Text → ManagedWebSocket → ManagedWebSocket × Outcome WsError (Unit {0})
close why reason ws = send (close_frame (some (code why, reason))) ws

-- `WEBSOCKET_PING`.
abbrev pub websocket_ping : Message
websocket_ping = ping (bytes "PING!!")

-- The match on what `recv` has returned; `none` for `continue`.
unfoldable pub match_event : Event → Option (Receipt WsError Text)
match_event elapsed = none
match_event (arrived (text x)) = some (got x)
match_event (arrived (binary x)) = some (refused (not_a_string x))
match_event (arrived (ping x)) = some panicked
match_event (arrived (pong x)) = none
match_event (arrived (close_frame x)) = some (refused already_closed)
match_event broken = some (refused io_error)
match_event ended = some (refused already_closed)

-- The loop of `recv_string`, on what comes, how often sending succeeds, and what was sent.
unfoldable pub recv_loop : List Event → ℕ → List Message → ManagedWebSocket × Receipt WsError Text
recv_loop [] sends_left sent =
    (record { coming = []; sends_left = sends_left; sent = sent }, waiting)
recv_loop (elapsed ∷ coming) zero sent =
    (record { coming = coming; sends_left = 0; sent = sent }, refused io_error)
recv_loop (elapsed ∷ coming) (suc n) sent = recv_loop coming n (sent ++ websocket_ping ∷ [])
recv_loop (event ∷ coming) sends_left sent =
    let rest = recv_loop coming sends_left sent in
    elim (match_event event) [
      | none ↦ rest
      | some receipt ↦ (record { coming = coming; sends_left = sends_left; sent = sent }, receipt)
    ]

unfoldable pub recv_string : ManagedWebSocket → ManagedWebSocket × Receipt WsError Text
recv_string ws = recv_loop ws.coming ws.sends_left ws.sent

unfoldable pub send_string : Text → ManagedWebSocket → ManagedWebSocket × Outcome WsError (Unit {0})
send_string msg ws = send (text msg) ws

-- One round of the loop of `wait_for_error`, and what is done after a text.
unfoldable pub wait_round :
    (ManagedWebSocket → ManagedWebSocket × Receipt (Unit {0}) WsError)
    → ManagedWebSocket × Receipt WsError Text
    → ManagedWebSocket × Receipt (Unit {0}) WsError
wait_round again (ws, got msg) = again ws
wait_round again (ws, refused e) = (ws, got e)
wait_round again (ws, panicked) = (ws, panicked)
wait_round again (ws, waiting) = (ws, waiting)

-- The loop, on how often it may receive; `waiting` also when that is used up.
unfoldable pub wait_for_error : ℕ → ManagedWebSocket → ManagedWebSocket × Receipt (Unit {0}) WsError
wait_for_error zero ws = (ws, waiting)
wait_for_error (suc n) ws = wait_round (wait_for_error n) (recv_string ws)

-- `impl TextStream for ManagedWebSocket`.
abbrev pub web_socket_stream : TextStreamApi ManagedWebSocket WsError
web_socket_stream = record {
  recv_string = recv_string;
  send_string = send_string;
  wait_for_error = wait_for_error;
}

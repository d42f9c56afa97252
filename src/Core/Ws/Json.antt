-- ===== src/Core/Ws/Json.antt =====
-- JSON messages over the websockets of ws.rs.
use mangle_apis.Base.{
  ℕ, zero, suc, ◌+◌, ◌≡◌, refl, sym, ap, Option, some, List, [], ◌∷◌, ◌++◌, All, Option-cases, inl,
  inr,
}
use mangle_apis.Base.Text.{Text}
use mangle_apis.Base.Outcome.{Outcome, ok}
use mangle_apis.Messagist.Text.{
  map_text_error, TextJsonError, send_message, recv_message, parse, got,
}
use mangle_apis.Core.Ws.{
  WsError, Message, text, Event, arrived, ManagedWebSocket, send, match_event, send_string,
  web_socket_stream,
}
use mangle_apis.Core.Ws.Recv.{text_returned, pings, IsQuiet, recv_string_lem}

-- The message is sent without an error.
abbrev Sent : Message → ManagedWebSocket → ManagedWebSocket → Type 0
Sent message ws after =
    let result : ManagedWebSocket × Outcome (TextJsonError WsError) (Unit {0}) =
      ((send message ws).0, map_text_error (send message ws).1) in
    result ≡ (after, ok tt)

send-ok :
    (message : Message) (ws after : ManagedWebSocket)
    → Sent message ws after
    → after.sent ≡ ws.sent ++ message ∷ []
unfolding send
send-ok message ws after = by_sends_left ws.sends_left refl
  where
    by_sends_left :
        (n : ℕ) → ws.sends_left ≡ n → Sent message ws after → after.sent ≡ ws.sent ++ message ∷ []
    by_sends_left zero spent = rw (spent, send) (λ e. absurd (cc))
    by_sends_left (suc n) more = rw (more, send) (λ e. sym (ap (λ r. r.0.sent) e))

module _ {M : Type 0} (to_string : M → Option Text) (from_str : Text → Option M)
    (codec : (m : M) (s : Text) → to_string m ≡ some s → from_str s ≡ some m) where
  sent_text :
      (m : M) (ws after : ManagedWebSocket)
      → send_message to_string from_str web_socket_stream m ws ≡ (after, ok tt)
      → (s : Text) × (to_string m ≡ some s) × (after.sent ≡ ws.sent ++ text s ∷ [])
  unfolding send_message send_string send
  sent_text m ws after = elim (Option-cases (to_string m)) [
    | inl no_json ↦ rw (no_json, send_message) (λ e. absurd (cc))
    | inr (s, json) ↦ rw (json, send_message) (λ e. (s, refl, send-ok (text s) ws after e))
  ]

  -- JSON over websockets, by a codec that reads back what it has written: a message that was sent without an
  -- error is one text frame behind what was sent before; a receiver to whom that frame comes, behind runs
  -- of the timer whose pings can be sent and pongs, gets the message, and what comes after it stays.
  pub recv_message-send_message :
      (m : M) (ws after : ManagedWebSocket)
      → send_message to_string from_str web_socket_stream m ws ≡ (after, ok tt)
      → (frame : Message) × (after.sent ≡ ws.sent ++ frame ∷ [])
        × ((to : ManagedWebSocket) (quiet rest : List Event) (left : ℕ)
            → to.coming ≡ quiet ++ arrived frame ∷ rest
            → All IsQuiet quiet
            → to.sends_left ≡ pings quiet + left
            → let (to', receipt) = recv_message to_string from_str web_socket_stream to in
              (receipt ≡ got m) × (to'.coming ≡ rest))
  unfolding recv_message parse match_event
  recv_message-send_message m ws after e =
      let (s, json, appended) = sent_text m ws after e in
      (
        text s,
        appended,
        λ to quiet rest left comes h enough.
            rw
              ((recv_string_lem to quiet (arrived (text s)) (got s) rest comes h
                  (text_returned s)).0
                left enough)
              (rw (codec m s json, parse) refl, refl),
      )

-- ===== src/Core/Ws/Recv.antt =====
-- What a websocket of ws.rs delivers, past the runs of its ping timer.
use mangle_apis.Base.{
  ℕ, zero, suc, ◌+◌, ◌<◌, ◌≡◌, refl, ap, ◌∙◌, Option, none, some, List, [], ◌∷◌, ◌++◌, All,
  replicate, append-nil, append_assoc, arith,
}
use mangle_apis.Base.Text.{Text}
use mangle_apis.Messagist.Text.{Receipt, got, refused, panicked}
use mangle_apis.Core.Ws.{
  close_frame, pong, ping, binary, WsError, io_error, not_a_string, already_closed, Message, text,
  Event, elapsed, arrived, broken, ended, ManagedWebSocket, websocket_ping, match_event, recv_loop,
  recv_string,
}

-- How often the timer runs out.
abbrev pub pings : List Event → ℕ
pings [] = 0
pings (elapsed ∷ events) = suc (pings events)
pings (event ∷ events) = pings events

-- Nothing that ends `recv_string`: runs of the timer and pongs.
abbrev pub IsQuiet : Event → Type 0
IsQuiet elapsed = Unit
IsQuiet (arrived (pong x)) = Unit
IsQuiet _ = ⊥

pub match_event-quiet : (event : Event) → IsQuiet event → match_event event ≡ none
unfolding match_event
match_event-quiet elapsed h = refl
match_event-quiet (arrived (pong x)) h = refl
match_event-quiet (arrived (text x)) h = absurd h
match_event-quiet (arrived (binary x)) h = absurd h
match_event-quiet (arrived (ping x)) h = absurd h
match_event-quiet (arrived (close_frame x)) h = absurd h
match_event-quiet broken h = absurd h
match_event-quiet ended h = absurd h

pub some_event :
    (event : Event) (receipt : Receipt WsError Text) (rest : List Event) (n : ℕ)
    (sent : List Message)
    → match_event event ≡ some receipt
    → recv_loop (event ∷ rest) n sent
      ≡ (record { coming = rest; sends_left = n; sent = sent }, receipt)
unfolding recv_loop match_event
some_event elapsed receipt rest n sent e = absurd (cc)
some_event (arrived message) receipt rest n sent e = rw (e, recv_loop) refl
some_event broken receipt rest n sent e =
    ap (λ r. (record { coming = rest; sends_left = n; sent = sent }, r)) (cc)
some_event ended receipt rest n sent e =
    ap (λ r. (record { coming = rest; sends_left = n; sent = sent }, r)) (cc)

pub more_pings :
    (k : ℕ) (sent : List Message)
    → (sent ++ websocket_ping ∷ []) ++ replicate k websocket_ping
      ≡ sent ++ replicate (suc k) websocket_ping
more_pings k sent = append_assoc sent (websocket_ping ∷ []) (replicate k websocket_ping)

-- `n` is how often sending succeeds at first, and `k` how often afterwards.
pub recv_loop-quiet :
    (quiet : List Event) (event : Event) (receipt : Receipt WsError Text) (rest : List Event)
    (n k : ℕ) (sent : List Message)
    → All IsQuiet quiet
    → match_event event ≡ some receipt
    → n ≡ pings quiet + k
    → recv_loop (quiet ++ event ∷ rest) n sent ≡ (
      record {
        coming = rest;
        sends_left = k;
        sent = sent ++ replicate (pings quiet) websocket_ping;
      },
      receipt,
    )
unfolding recv_loop match_event
recv_loop-quiet [] event receipt rest n k sent h e enough = rw (append-nil sent) (
    some_event event receipt rest n sent e
    ∙ ap (λ m. (record { coming = rest; sends_left = m; sent = sent }, receipt)) (omega arith))
recv_loop-quiet (elapsed ∷ quiet) event receipt rest zero k sent h e enough = absurd (omega arith)
recv_loop-quiet (elapsed ∷ quiet) event receipt rest (suc n) k sent h e enough =
    rw (← more_pings (pings quiet) sent) (
      recv_loop-quiet quiet event receipt rest n k (sent ++ websocket_ping ∷ []) h.1 e
        (omega arith))
recv_loop-quiet (arrived message ∷ quiet) event receipt rest n k sent h e enough =
    rw (match_event-quiet (arrived message) h.0, recv_loop)
      (recv_loop-quiet quiet event receipt rest n k sent h.1 e enough)
recv_loop-quiet (broken ∷ quiet) event receipt rest n k sent h e enough = absurd (h.0)
recv_loop-quiet (ended ∷ quiet) event receipt rest n k sent h e enough = absurd (h.0)

-- When the timer runs out more often than sending succeeds, the last ping fails.
recv_loop-unsent :
    (quiet tail : List Event) (n : ℕ) (sent : List Message)
    → All IsQuiet quiet
    → n < pings quiet
    → (rest : List Event) × (recv_loop (quiet ++ tail) n sent ≡ (
      record { coming = rest; sends_left = 0; sent = sent ++ replicate n websocket_ping },
      refused io_error,
    ))
unfolding recv_loop match_event
recv_loop-unsent [] tail n sent h few = absurd (omega arith)
recv_loop-unsent (elapsed ∷ quiet) tail zero sent h few = (quiet ++ tail, rw (append-nil sent) refl)
recv_loop-unsent (elapsed ∷ quiet) tail (suc n) sent h few =
    let (rest, same) =
      recv_loop-unsent quiet tail n (sent ++ websocket_ping ∷ []) h.1 (omega arith) in
    (rest, rw (← more_pings n sent) same)
recv_loop-unsent (arrived message ∷ quiet) tail n sent h few =
    let (rest, same) = recv_loop-unsent quiet tail n sent h.1 few in
    (rest, rw (match_event-quiet (arrived message) h.0, recv_loop) same)
recv_loop-unsent (broken ∷ quiet) tail n sent h few = absurd (h.0)
recv_loop-unsent (ended ∷ quiet) tail n sent h few = absurd (h.0)

-- What ends `recv_string`, and with which result: a text is returned, a binary frame is refused as not a string,
-- a ping runs into `unreachable!()`, a close frame and the end of the stream are refused as closed, and an
-- error of the transport is passed on.
pub data Answers : Event → Receipt WsError Text → Type 0 where
  text_returned : (x : Text) → Answers (arrived (text x)) (got x)
  binary_refused : (x : List ℕ) → Answers (arrived (binary x)) (refused (not_a_string x))
  ping_panics : (x : List ℕ) → Answers (arrived (ping x)) panicked
  close_refused :
      (x : Option (ℕ × Text)) → Answers (arrived (close_frame x)) (refused already_closed)
  error_refused : Answers broken (refused io_error)
  end_refused : Answers ended (refused already_closed)

pub match_event-Answers :
    (event : Event) (receipt : Receipt WsError Text)
    → Answers event receipt
    → match_event event ≡ some receipt
unfolding match_event
match_event-Answers _ _ (text_returned x) = refl
match_event-Answers _ _ (binary_refused x) = refl
match_event-Answers _ _ (ping_panics x) = refl
match_event-Answers _ _ (close_refused x) = refl
match_event-Answers _ _ error_refused = refl
match_event-Answers _ _ end_refused = refl

-- `recv_string` over runs of the ping timer and pongs: with one ping sent for each run, and as long as
-- these can be sent, it goes on to the first other event and comes to what `Answers` has for that event,
-- a panic for a ping included, and what comes after the event stays; if one of the pings cannot be
-- sent, it returns the I/O error after the pings before.
pub recv_string_lem :
    (ws : ManagedWebSocket) (quiet : List Event) (event : Event) (receipt : Receipt WsError Text)
    (rest : List Event)
    → ws.coming ≡ quiet ++ event ∷ rest
    → All IsQuiet quiet
    → Answers event receipt
    → ((left : ℕ)
        → ws.sends_left ≡ pings quiet + left
        → recv_string ws ≡ (
          record {
            coming = rest;
            sends_left = left;
            sent = ws.sent ++ replicate (pings quiet) websocket_ping;
          },
          receipt,
        ))
      × (ws.sends_left < pings quiet
          → ((recv_string ws).1 ≡ refused io_error)
            × ((recv_string ws).0.sent ≡ ws.sent ++ replicate ws.sends_left websocket_ping))
unfolding recv_string
recv_string_lem ws quiet event receipt rest comes h answers =
    let e = match_event-Answers event receipt answers in
    (
      λ left enough.
          rw comes (recv_loop-quiet quiet event receipt rest ws.sends_left left ws.sent h e enough),
      λ few.
          let (left, same) = recv_loop-unsent quiet (event ∷ rest) ws.sends_left ws.sent h few in
          rw (comes, same) (refl, refl),
    )

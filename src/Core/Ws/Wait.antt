-- ===== src/Core/Ws/Wait.antt =====
-- The loop `wait_for_error` of ws.rs.
use mangle_apis.Base.{
  ℕ, zero, suc, ◌+◌, ◌<◌, ◌≡◌, refl, ap, ◌∙◌, some, List, [], ◌∷◌, ◌++◌, All, length, replicate,
  arith, inl, inr, ◌⊎◌,
}
use mangle_apis.Base.Text.{Text}
use mangle_apis.Messagist.Text.{got, refused}
use mangle_apis.Core.Ws.{
  WsError, Message, text, Event, elapsed, arrived, broken, ended, ManagedWebSocket, websocket_ping,
  match_event, recv_loop, recv_string, wait_for_error, wait_round,
}
use mangle_apis.Core.Ws.Recv.{
  Answers, match_event-Answers, pings, IsQuiet, match_event-quiet, some_event, more_pings,
  recv_loop-quiet,
}

-- What `wait_for_error` passes over: quiet events and texts.
abbrev pub IsPassed : Event → Type 0
IsPassed event = IsQuiet event ⊎ ((x : Text) × (event ≡ arrived (text x)))

passed_over :
    (message : Message) (rest : List Event) (n : ℕ) (sent : List Message)
    → IsQuiet (arrived message)
    → recv_loop (arrived message ∷ rest) n sent ≡ recv_loop rest n sent
unfolding recv_loop
passed_over message rest n sent quiet =
    rw (match_event-quiet (arrived message) quiet, recv_loop) refl

wait_loop :
    (passed : List Event) (event : Event) (e : WsError) (rest : List Event) (fuel n k : ℕ)
    (sent : List Message)
    → All IsPassed passed
    → match_event event ≡ some (refused e)
    → n ≡ pings passed + k
    → length passed < fuel
    → wait_for_error fuel (record { coming = passed ++ event ∷ rest; sends_left = n; sent = sent })
      ≡ (
        record {
          coming = rest;
          sends_left = k;
          sent = sent ++ replicate (pings passed) websocket_ping;
        },
        got e,
      )
unfolding wait_for_error wait_round recv_string recv_loop match_event
wait_loop passed event e rest zero n k sent h ends enough fits = absurd (omega arith)
wait_loop [] event e rest (suc fuel) n k sent h ends enough fits =
    ap (wait_round (wait_for_error fuel))
      (recv_loop-quiet [] event (refused e) rest n k sent tt ends enough)
wait_loop (elapsed ∷ passed) event e rest (suc fuel) zero k sent h ends enough fits =
    absurd (omega arith)
wait_loop (elapsed ∷ passed) event e rest (suc fuel) (suc n) k sent h ends enough fits =
    rw (← more_pings (pings passed) sent) (
      wait_loop passed event e rest (suc fuel) n k (sent ++ websocket_ping ∷ []) h.1 ends
        (omega arith) (omega arith))
wait_loop (arrived message ∷ passed) event e rest (suc fuel) n k sent h ends enough fits =
    elim (h.0) [
      | inl quiet ↦
          ap (wait_round (wait_for_error fuel))
            (passed_over message (passed ++ event ∷ rest) n sent quiet)
          ∙ wait_loop passed event e rest (suc fuel) n k sent h.1 ends enough (omega arith)
      | inr (x, is_text) ↦
          ap (wait_round (wait_for_error fuel)) (
            some_event (arrived message) (got x) (passed ++ event ∷ rest) n sent
              (ap match_event is_text))
          ∙ wait_loop passed event e rest fuel n k sent h.1 ends enough (omega arith)
    ]
wait_loop (broken ∷ passed) event e rest (suc fuel) n k sent h ends enough fits = elim (h.0) [
  | inl quiet ↦ absurd quiet
  | inr (x, is_text) ↦ absurd (cc)
]
wait_loop (ended ∷ passed) event e rest (suc fuel) n k sent h ends enough fits = elim (h.0) [
  | inl quiet ↦ absurd quiet
  | inr (x, is_text) ↦ absurd (cc)
]

-- `wait_for_error` ends at an error: if what comes is, after texts, pongs and runs of the timer whose pings
-- can be sent, an event that `Answers` has refused, then the loop, allowed one round more than there are
-- events before, returns that error, with one ping sent for each run of the timer, and what comes after
-- the event stays.
pub wait_for_error_lem :
    (ws : ManagedWebSocket) (passed rest : List Event) (event : Event) (e : WsError) (left fuel : ℕ)
    → ws.coming ≡ passed ++ event ∷ rest
    → All IsPassed passed
    → Answers event (refused e)
    → ws.sends_left ≡ pings passed + left
    → length passed < fuel
    → wait_for_error fuel ws ≡ (
      record {
        coming = rest;
        sends_left = left;
        sent = ws.sent ++ replicate (pings passed) websocket_ping;
      },
      got e,
    )
wait_for_error_lem ws passed rest event e left fuel comes h ends enough fits =
    ap
      (λ c. wait_for_error fuel (record { coming = c; sends_left = ws.sends_left; sent = ws.sent }))
      comes
    ∙ wait_loop passed event e rest fuel ws.sends_left left ws.sent h
        (match_event-Answers event (refused e) ends) enough fits

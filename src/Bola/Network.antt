-- ===== src/Bola/Network.antt =====
-- bola-api/src/network.rs: high scores that siblings send, on their way to the task of the leaderboard. What
-- the stream of a sibling holds, and what a receiver of the broadcast channel finds, is given.
mod Laws
mod Tests
use mangle_apis.Base.{ℕ, Option, none, some, List, [], ◌∷◌, ◌++◌}
use mangle_apis.Messagist.Text.{Receipt, got, refused, panicked, waiting}
use mangle_apis.Bola.Leaderboard.{HighscoreUpdate, Leaderboard, receive_update}

pub data NetworkMessage : Type 0 where
  highscore_update : HighscoreUpdate → NetworkMessage

-- The handler, with what was sent to its channel and the errors that were logged.
pub record SiblingNetworkHandler (E : Type 0) : Type 0 where
  pub highscore_updater : List HighscoreUpdate
  pub errors : List E

-- `handle`, with what `recv_message` returns. A send without subscribers is ignored.
unfoldable pub handle :
    {E : Type 0} → Receipt E NetworkMessage → SiblingNetworkHandler E → SiblingNetworkHandler E
handle (got (highscore_update msg)) h = record h {
  highscore_updater = h.highscore_updater ++ msg ∷ [];
}
handle (refused e) h = record h { errors = h.errors ++ e ∷ [] }
handle panicked h = h
handle waiting h = h

-- What `recv` of a broadcast receiver returns: the next value, that it has missed as many values as the
-- buffer could not hold, or that the channel is closed.
pub data Received : Type 0 where
  value : HighscoreUpdate → Received
  lagged : ℕ → Received
  closed : Received

-- `recv().await.ok()`.
unfoldable pub wait_for_update : Received → Option HighscoreUpdate
wait_for_update (value msg) = some msg
wait_for_update (lagged n) = none
wait_for_update closed = none

-- The loop of the task that `Leaderboard::new` spawns, with the time of each round.
unfoldable pub update_loop : List (Received × ℕ) → Leaderboard → Leaderboard
update_loop [] s = s
update_loop ((received, now) ∷ more) s = elim (wait_for_update received) [
  | none ↦ s
  | some msg ↦ update_loop more (receive_update msg now s)
]

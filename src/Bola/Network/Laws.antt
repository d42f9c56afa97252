-- ===== src/Bola/Network/Laws.antt =====
-- The boards of two nodes, of which one receives what the other sends.
use mangle_apis.Base.{
  ℕ, ◌≡◌, refl, sym, ap, ◌∙◌, Bool, List, [], ◌∷◌, ◌++◌, append-nil, append_assoc, inl, inr,
}
use mangle_apis.Base.Text.{Text}
use mangle_apis.Messagist.Text.{got}
use mangle_apis.Bola.Leaderboard.{
  Difficulty, LeaderboardEntry, HighscoreUpdate, Leaderboard, add_leaderboard_entry, receive_update,
}
use mangle_apis.Bola.Leaderboard.Siblings.{SameBoards, add-SameBoards}
use mangle_apis.Bola.Network.{
  highscore_update, SiblingNetworkHandler, handle, Received, value, lagged, wait_for_update,
  update_loop,
}

-- A call of `add_leaderboard_entry`: whether the database accepts it, and its time.
pub record Submission : Type 0 where
  pub difficulty : Difficulty
  pub email : Text
  pub entry : LeaderboardEntry
  pub accepted : Bool
  pub now : ℕ

abbrev pub submit : Submission → Leaderboard → Leaderboard
submit x s = (add_leaderboard_entry x.difficulty x.email x.entry x.accepted x.now s).0

abbrev pub submit_all : List Submission → Leaderboard → Leaderboard
submit_all [] s = s
submit_all (x ∷ xs) s = submit_all xs (submit x s)

-- The handler, given one message after the other.
abbrev pub handle_all :
    {E : Type 0} → List HighscoreUpdate → SiblingNetworkHandler E → SiblingNetworkHandler E
handle_all [] h = h
handle_all (msg ∷ msgs) h = handle_all msgs (handle (got (highscore_update msg)) h)

abbrev pub values : ℕ → List HighscoreUpdate → List (Received × ℕ)
values now [] = []
values now (msg ∷ msgs) = (value msg, now) ∷ values now msgs

highscore_updater-handle_all :
    {E : Type 0} (msgs : List HighscoreUpdate) (h : SiblingNetworkHandler E)
    → (handle_all msgs h).highscore_updater ≡ h.highscore_updater ++ msgs
unfolding handle
highscore_updater-handle_all [] h = sym (append-nil h.highscore_updater)
highscore_updater-handle_all (msg ∷ msgs) h =
    highscore_updater-handle_all msgs
      (record h { highscore_updater = h.highscore_updater ++ msg ∷ [] })
    ∙ append_assoc h.highscore_updater (msg ∷ []) msgs

-- Two nodes that show the same, of which one takes any submissions: it sends some messages, which the
-- handler of the other passes on, all and in order; and once the task of the other's leaderboard has
-- found these values, the two nodes show the same again.
pub siblings_agree :
    {E : Type 0} (xs : List Submission) (s t : Leaderboard) (h : SiblingNetworkHandler E) (now : ℕ)
    → SameBoards s t
    → (msgs : List HighscoreUpdate) × ((submit_all xs s).sent ≡ s.sent ++ msgs)
      × ((handle_all msgs h).highscore_updater ≡ h.highscore_updater ++ msgs)
      × SameBoards (submit_all xs s) (update_loop (values now msgs) t)
unfolding update_loop wait_for_update handle
siblings_agree [] s t h now same =
    ([], sym (append-nil s.sent), highscore_updater-handle_all [] h, same)
siblings_agree (x ∷ xs) s t h now same =
    elim (add-SameBoards x.difficulty x.email x.entry x.accepted x.now now s t same) [
      | inl (quiet, still) ↦
          let (msgs, sent, handled, again) = siblings_agree xs (submit x s) t h now still in
          (msgs, sent ∙ ap (λ l. l ++ msgs) quiet, handled, again)
      | inr (msg, told, still) ↦
          let (msgs, sent, handled, again) =
            siblings_agree xs (submit x s) (receive_update msg now t) h now still in
          (
            msg ∷ msgs,
            sent ∙ ap (λ l. l ++ msgs) told ∙ append_assoc s.sent (msg ∷ []) msgs,
            highscore_updater-handle_all (msg ∷ msgs) h,
            again,
          )
    ]

-- A node that has fallen behind the messages of its siblings once, by more than the channel holds, takes
-- no later message: after the first values, whatever follows the report that some were missed, the boards
-- stay as these values have left them.
pub update_loop-lagged :
    (now : ℕ) (msgs : List HighscoreUpdate) (missed : ℕ) (more : List (Received × ℕ))
    (s : Leaderboard)
    → update_loop (values now msgs ++ (lagged missed, now) ∷ more) s
      ≡ update_loop (values now msgs) s
unfolding update_loop wait_for_update
update_loop-lagged now [] missed more s = refl
update_loop-lagged now (msg ∷ msgs) missed more s =
    update_loop-lagged now msgs missed more (receive_update msg now s)

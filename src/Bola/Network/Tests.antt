-- ===== src/Bola/Network/Tests.antt =====
-- Two nodes with empty boards.
use mangle_apis.Base.{ℕ, ◌≡◌, refl, true, false, List, [], ◌∷◌, ◌++◌}
use mangle_apis.Base.Text.{bytes}
use mangle_apis.Bola.Leaderboard.{easy, expert, HighscoreUpdate, Leaderboard}
use mangle_apis.Bola.Leaderboard.Siblings.{SameBoards}
use mangle_apis.Bola.Network.{SiblingNetworkHandler, value, lagged, update_loop}
use mangle_apis.Bola.Network.Laws.{
  Submission, submit_all, handle_all, values, siblings_agree, update_loop-lagged,
}

abbrev empty_boards : Leaderboard
empty_boards = record {
  easy_leaderboard = [];
  normal_leaderboard = [];
  expert_leaderboard = [];
  last_update = 0;
  leaderboard_span = 5;
  updates = [];
  writes = [];
  sent = [];
}

abbrev no_messages : SiblingNetworkHandler ℕ
no_messages = record { highscore_updater = []; errors = [] }

abbrev submissions : List Submission
submissions =
    record {
      difficulty = easy;
      email = bytes "a@b";
      entry = record { score = 30; username = bytes "ann" };
      accepted = true;
      now = 1;
    }
    ∷ record {
      difficulty = expert;
      email = bytes "b@b";
      entry = record { score = 40; username = bytes "bob" };
      accepted = false;
      now = 2;
    }
    ∷ []

abbrev ann_scored : HighscoreUpdate
ann_scored = record { difficulty = bytes "easy"; username = bytes "ann"; score = 30 }

siblings_agree_example :
    (msgs : List HighscoreUpdate) × ((submit_all submissions empty_boards).sent ≡ [] ++ msgs)
    × ((handle_all msgs no_messages).highscore_updater ≡ [] ++ msgs)
    × SameBoards (submit_all submissions empty_boards) (update_loop (values 3 msgs) empty_boards)
siblings_agree_example =
    siblings_agree submissions empty_boards empty_boards no_messages 3
      (record { same_span = refl; same_easy = refl; same_normal = refl; same_expert = refl })

abbrev missed : ℕ
missed = 9

update_loop-lagged_example :
    update_loop (values 3 [] ++ (lagged missed, 3) ∷ (value ann_scored, 4) ∷ []) empty_boards
    ≡ update_loop [] empty_boards
update_loop-lagged_example =
    update_loop-lagged 3 [] missed ((value ann_scored, 4) ∷ []) empty_boards

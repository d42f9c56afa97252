-- ===== src/Bola/Pull/Tests.antt =====
-- A table with two players.
use mangle_apis.Base.{◌≤◌, ◌≡◌, refl, none, some, List, [], ◌∷◌, map, All, arith}
use mangle_apis.Base.Text.{Text, bytes}
use mangle_apis.Base.Map.{MapApi, text_map}
use mangle_apis.Base.Outcome.{ok, err}
use mangle_apis.Bola.Leaderboard.{Difficulty, easy, normal, expert}
use mangle_apis.Bola.Db.{AttributeValue}
use mangle_apis.Bola.Pull.{no_items, pull_leaderboard, new_leaderboard}
use mangle_apis.Bola.Pull.Laws.{Row, written, new_leaderboard-written}

abbrev Items : MapApi Text AttributeValue
Items = text_map AttributeValue

abbrev ann : Row
ann = record {
  email = bytes "a@b";
  tournament_wins = 3 ∷ [];
  entry = record { score = 900; username = bytes "ann" };
}

abbrev bob : Row
bob = record {
  email = bytes "b@b";
  tournament_wins = [];
  entry = record { score = 70; username = bytes "bob" };
}

abbrev rows : Difficulty → List Row
rows easy = ann ∷ bob ∷ []
rows normal = bob ∷ []
rows expert = []

fits : (d : Difficulty) → All (λ row. row.entry.score ≤ 65535) (rows d)
fits easy = (omega arith, (omega arith, tt))
fits normal = (omega arith, tt)
fits expert = tt

nothing_there : pull_leaderboard Items (bytes "easy_highscore") (ok none) ≡ err no_items
unfolding pull_leaderboard
nothing_there = refl

new_leaderboard-written_example :
    new_leaderboard Items (λ d. ok (some (map (written Items d) (rows d)))) 12 5
    ≡ ok (record {
      easy_leaderboard = ann.entry ∷ bob.entry ∷ [];
      normal_leaderboard = bob.entry ∷ [];
      expert_leaderboard = [];
      last_update = 12;
      leaderboard_span = 5;
      updates = [];
      writes = [];
      sent = [];
    })
new_leaderboard-written_example = new_leaderboard-written Items rows 12 5 fits

-- ===== src/Bola/Pull/Laws.antt =====
-- The boards that a starting node reads are those that are in the database.
use mangle_apis.Base.{ℕ, ◌≤◌, ◌≡◌, refl, ◌∙◌, false, some, List, [], ◌∷◌, map, All}
use mangle_apis.Base.Text.{Text, bytes, text_eq}
use mangle_apis.Base.Map.{MapApi}
use mangle_apis.Base.Outcome.{ok}
use mangle_apis.Base.Decimal.{to_string, parse_u16-to_string}
use mangle_apis.Bola.Leaderboard.{LeaderboardEntry, Difficulty, easy, normal, expert}
use mangle_apis.Bola.Db.{AttributeValue, s, n, as_s, as_n, with_wins, new_item}
use mangle_apis.Bola.Db.Laws.{get-own, get-other}
use mangle_apis.Bola.Pull.{
  field, parse_score, board_name, pull_entry, pull_entries, pull_leaderboard, new_leaderboard,
}

-- A player as `create_user_profile` enters them, and the score that `add_leaderboard_entry` puts.
pub record Row : Type 0 where
  pub email : Text
  pub tournament_wins : List ℕ
  pub entry : LeaderboardEntry

module _ (M : MapApi Text AttributeValue) where
  abbrev pub written : Difficulty → Row → M.Map
  written d row =
      M.insert (new_item M row.email row.entry.username row.tournament_wins) (board_name d)
        (n (to_string row.entry.score))

  get-with_wins :
      (wins : List ℕ) (item : M.Map) (name : Text)
      → text_eq (bytes "tournament_wins") name ≡ false
      → M.get (with_wins M wins item) name ≡ M.get item name
  unfolding with_wins
  get-with_wins [] item name differ = refl
  get-with_wins (win ∷ wins) item name differ = get-other M item _ _ name differ

  written-email :
      (d : Difficulty) (row : Row) → M.get (written d row) (bytes "email") ≡ some (s row.email)
  unfolding new_item text_eq
  written-email d row =
      get-other M _ (board_name d) _ (bytes "email") (other_field d)
      ∙ get-with_wins row.tournament_wins _ (bytes "email") refl
      ∙ get-other M _ (bytes "unused") _ (bytes "email") refl
      ∙ get-other M _ (bytes "username") _ (bytes "email") refl
      ∙ get-other M _ (bytes "expert_highscore") _ (bytes "email") refl
      ∙ get-other M _ (bytes "normal_highscore") _ (bytes "email") refl
      ∙ get-other M _ (bytes "easy_highscore") _ (bytes "email") refl
      ∙ get-own M M.empty (bytes "email") (s row.email)
    where
      other_field : (d : Difficulty) → text_eq (board_name d) (bytes "email") ≡ false
      other_field easy = refl
      other_field normal = refl
      other_field expert = refl

  written-username :
      (d : Difficulty) (row : Row)
      → M.get (written d row) (bytes "username") ≡ some (s row.entry.username)
  unfolding new_item text_eq
  written-username d row =
      get-other M _ (board_name d) _ (bytes "username") (other_field d)
      ∙ get-with_wins row.tournament_wins _ (bytes "username") refl
      ∙ get-other M _ (bytes "unused") _ (bytes "username") refl
      ∙ get-own M _ (bytes "username") (s row.entry.username)
    where
      other_field : (d : Difficulty) → text_eq (board_name d) (bytes "username") ≡ false
      other_field easy = refl
      other_field normal = refl
      other_field expert = refl

  pull_entry-written :
      (d : Difficulty) (row : Row)
      → row.entry.score ≤ 65535
      → pull_entry M (board_name d) (written d row) ≡ ok row.entry
  unfolding pull_entry field parse_score as_s as_n
  pull_entry-written d row fits =
      rw
        (
          written-email d row,
          get-own M (new_item M row.email row.entry.username row.tournament_wins) (board_name d)
              (n (to_string row.entry.score)),
        )
        (rw (parse_u16-to_string row.entry.score fits, parse_score)
          (rw (written-username d row) refl))

  pull_entries-written :
      (d : Difficulty) (rows : List Row)
      → All (λ row. row.entry.score ≤ 65535) rows
      → pull_entries M (board_name d) (map (written d) rows) ≡ ok (map (λ row. row.entry) rows)
  unfolding pull_entries
  pull_entries-written d [] h = refl
  pull_entries-written d (row ∷ rows) h =
      rw (pull_entry-written d row h.0, pull_entries-written d rows h.1) refl

  -- A node that starts reads what is in the database: where the query for each board answers with
  -- items of players as they are created, with a score of 16 bits put for that board, the boards have
  -- exactly these players and scores, in the order of the answers, and nothing was sent or written.
  pub new_leaderboard-written :
      (rows : Difficulty → List Row) (now span : ℕ)
      → ((d : Difficulty) → All (λ row. row.entry.score ≤ 65535) (rows d))
      → new_leaderboard M (λ d. ok (some (map (written d) (rows d)))) now span
        ≡ ok (record {
          easy_leaderboard = map (λ row. row.entry) (rows easy);
          normal_leaderboard = map (λ row. row.entry) (rows normal);
          expert_leaderboard = map (λ row. row.entry) (rows expert);
          last_update = now;
          leaderboard_span = span;
          updates = [];
          writes = [];
          sent = [];
        })
  unfolding new_leaderboard pull_leaderboard
  new_leaderboard-written rows now span fits =
      rw
        (
          pull_entries-written easy (rows easy) (fits easy),
          pull_entries-written normal (rows normal) (fits normal),
          pull_entries-written expert (rows expert) (fits expert),
        )
        refl

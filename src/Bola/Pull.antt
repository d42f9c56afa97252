-- ===== src/Bola/Pull.antt =====
-- bola-api/src/leaderboard.rs: the boards that a node reads from the database when it starts. What the
-- client answers to the query for a board is given: an error, no items, or the items, the best first.
pub mod Laws
mod Tests
use mangle_apis.Base.{ℕ, Option, none, some, List, [], ◌∷◌, ◌++◌}
use mangle_apis.Base.Text.{Text, bytes}
use mangle_apis.Base.Map.{MapApi}
use mangle_apis.Base.Outcome.{Outcome, ok, err, panic, ◌>>=◌}
use mangle_apis.Base.Decimal.{parse_u16}
use mangle_apis.Bola.Leaderboard.{
  LeaderboardEntry, Leaderboard, Difficulty, easy, normal, expert, difficulty_name,
}
use mangle_apis.Bola.Db.{AttributeValue, as_s, as_n}

pub data PullError : Type 0 where
  query_failed : PullError
  no_items : PullError
  -- the field that is missing, has another type, or is no number of 16 bits
  missing : Text → PullError
  wrong_type : Text → PullError
  not_a_number : Text → PullError

-- `ok_or` of `get`, and `map_err` of the conversion.
unfoldable pub field :
    {A : Type 0} → Text → (AttributeValue → Option A) → Option AttributeValue → Outcome PullError A
field name op none = err (missing name)
field name op (some value) = elim (op value) [ none ↦ err (wrong_type name) | some a ↦ ok a ]

unfoldable pub parse_score : Text → Text → Outcome PullError ℕ
parse_score name text = elim (parse_u16 text) [ none ↦ err (not_a_number name) | some n ↦ ok n ]

-- `"{difficulty}_highscore"`.
abbrev pub board_name : Difficulty → Text
board_name d = difficulty_name d ++ bytes "_highscore"

module _ (M : MapApi Text AttributeValue) where
  -- One round of the loop over the items.
  unfoldable pub pull_entry : Text → M.Map → Outcome PullError LeaderboardEntry
  pull_entry name record_map =
      field (bytes "email") as_s (M.get record_map (bytes "email")) >>= λ email.
      field name as_n (M.get record_map name) >>= parse_score name >>= λ score.
      field (bytes "username") as_s (M.get record_map (bytes "username")) >>= λ username.
      ok (record { score = score; username = username })

  unfoldable pub pull_entries : Text → List M.Map → Outcome PullError (List LeaderboardEntry)
  pull_entries name [] = ok []
  pull_entries name (item ∷ items) =
      pull_entry name item >>= λ entry. pull_entries name items >>= λ entries. ok (entry ∷ entries)

  unfoldable pub pull_leaderboard :
      Text → Outcome PullError (Option (List M.Map)) → Outcome PullError (List LeaderboardEntry)
  pull_leaderboard name answer =
      answer >>= λ query. elim query [ none ↦ err no_items | some items ↦ pull_entries name items ]

  -- `Leaderboard::new`, up to the task that it spawns: the answers to the three queries, the time and
  -- the span.
  unfoldable pub new_leaderboard :
      (Difficulty → Outcome PullError (Option (List M.Map))) → ℕ → ℕ → Outcome PullError Leaderboard
  new_leaderboard query now span =
      pull_leaderboard (board_name easy) (query easy) >>= λ easy_entries.
      pull_leaderboard (board_name normal) (query normal) >>= λ normal_entries.
      pull_leaderboard (board_name expert) (query expert) >>= λ expert_entries. ok (record {
        easy_leaderboard = easy_entries;
        normal_leaderboard = normal_entries;
        expert_leaderboard = expert_entries;
        last_update = now;
        leaderboard_span = span;
        updates = [];
        writes = [];
        sent = [];
      })

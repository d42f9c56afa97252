-- ===== src/Bola/Leaderboard/Ideal/Defs.antt =====
-- The specification of a leaderboard: an ideal board that forgets nobody and keeps the best score of
-- every user, from the highest entry down. A leaderboard of span `n` shows its first `n` entries.
use mangle_apis.Base.{ℕ, Option, none, some, List, [], ◌∷◌, leb, if◌then◌else◌}
use mangle_apis.Base.Text.{Text, text_eq}
use mangle_apis.Base.Sort.{insert, IsLinear}
use mangle_apis.Bola.Leaderboard.{LeaderboardEntry, entry_gt, update_entries}
use mangle_apis.Bola.Leaderboard.Order.{entry_gt-IsLinear}

abbrev pub lin : IsLinear entry_gt
lin = entry_gt-IsLinear

-- The entry of a user.
unfoldable pub find_user : Text → List LeaderboardEntry → Option LeaderboardEntry
find_user u [] = none
find_user u (x ∷ l) = if text_eq x.username u then some x else find_user u l

unfoldable pub remove_user : Text → List LeaderboardEntry → List LeaderboardEntry
remove_user u [] = []
remove_user u (x ∷ l) = let rest = x ∷ remove_user u l in if text_eq x.username u then l else rest

-- The ideal board after a submission: a score that is no better than the user's is forgotten.
unfoldable pub record_best : LeaderboardEntry → List LeaderboardEntry → List LeaderboardEntry
record_best e h = elim (find_user e.username h) [
  | none ↦ insert entry_gt e h
  | some old ↦ if leb e.score old.score then h else insert entry_gt e (remove_user e.username h)
]

-- The board after `update_entries`, which is the old one where that returns `none`.
abbrev pub shown : ℕ → LeaderboardEntry → List LeaderboardEntry → List LeaderboardEntry
shown n e l = elim (update_entries n e l) [ none ↦ l | some l' ↦ l' ]

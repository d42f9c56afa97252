-- ===== src/Bola/Leaderboard.antt =====
-- bola-api/src/leaderboard.rs: the three leaderboards of a node. A leaderboard is kept as a vector
-- of entries. The requests to the database and to the sibling nodes are recorded in the state, and
-- whether the database accepts a request is an argument.
pub mod Order
pub mod Ideal
pub mod Invariant
pub mod Service
pub mod Siblings
mod Tests
use mangle_apis.Base.{
  ℕ, zero, suc, ◌+◌, ◌-◌, ◌<◌, Bool, true, false, Option, none, some, List, [], ◌∷◌, ◌++◌, ltb, leb,
  if◌then◌else◌, length, compare, Ordering,
}
use mangle_apis.Base.Text.{Text, bytes, text_eq, cmp}
use mangle_apis.Base.Sort.{sort}
use mangle_apis.Base.Outcome.{Outcome, ok, err, panic}

pub record LeaderboardEntry : Type 0 where
  pub score : ℕ
  pub username : Text

-- `#[derive(Ord)]`: by score, then by username.
unfoldable pub entry_cmp : LeaderboardEntry → LeaderboardEntry → Ordering
entry_cmp a b = elim (compare a.score b.score) [
  | Ordering.lt ↦ Ordering.lt
  | Ordering.eq ↦ cmp a.username b.username
  | Ordering.gt ↦ Ordering.gt
]

-- `a > b`.
unfoldable pub entry_gt : LeaderboardEntry → LeaderboardEntry → Bool
entry_gt a b = elim (entry_cmp a b) [ Ordering.gt ↦ true | _ ↦ false ]

-- `a >= b`.
unfoldable pub entry_ge : LeaderboardEntry → LeaderboardEntry → Bool
entry_ge a b = elim (entry_cmp a b) [ Ordering.lt ↦ false | _ ↦ true ]

-- What the loop over the saved entries comes to: a saved score that is no worse (`return false`),
-- a vector with the user's entry replaced (`entry` is taken), or no entry of the user.
pub data Scan : Type 0 where
  stale : Scan
  replaced : List LeaderboardEntry → Scan
  absent : Scan

abbrev pub keep : LeaderboardEntry → Scan → Scan
keep s stale = stale
keep s (replaced l) = replaced (s ∷ l)
keep s absent = absent

unfoldable pub scan : LeaderboardEntry → List LeaderboardEntry → Scan
scan entry [] = absent
scan entry (saved ∷ l) =
    let rest = keep saved (scan entry l) in
    if text_eq saved.username entry.username
    then if leb entry.score saved.score then stale else replaced (entry ∷ l)
    else rest

-- `last_mut()`.
unfoldable pub last : List LeaderboardEntry → Option LeaderboardEntry
last [] = none
last (x ∷ []) = some x
last (x ∷ y ∷ l) = last (y ∷ l)

-- `*last = entry`.
unfoldable pub set_last : List LeaderboardEntry → LeaderboardEntry → List LeaderboardEntry
set_last [] entry = []
set_last (x ∷ []) entry = entry ∷ []
set_last (x ∷ y ∷ l) entry = x ∷ set_last (y ∷ l) entry

-- The entry of a user without one on the leaderboard. `none` is `return false`; the vector that
-- `update!` sorts otherwise.
unfoldable pub place : ℕ → LeaderboardEntry → List LeaderboardEntry → Option (List LeaderboardEntry)
place span entry l =
    if leb span (length l)
    then elim (last l) [
      | none ↦ none
      | some lowest ↦ if entry_ge lowest entry then none else some (set_last l entry)
    ]
    else some (l ++ entry ∷ [])

abbrev pub settle :
    ℕ → LeaderboardEntry → List LeaderboardEntry → Scan → Option (List LeaderboardEntry)
settle span entry l stale = none
settle span entry l (replaced l') = some l'
settle span entry l absent = place span entry l

-- The vector after `local_update_leaderboard`, sorted by `b.cmp(a)`, or `none` where it returns
-- false and leaves the vector alone.
unfoldable pub update_entries :
    ℕ → LeaderboardEntry → List LeaderboardEntry → Option (List LeaderboardEntry)
update_entries span entry [] = some (sort entry_gt (entry ∷ []))
update_entries span entry (x ∷ l) = elim (settle span entry (x ∷ l) (scan entry (x ∷ l))) [
  | none ↦ none
  | some l' ↦ some (sort entry_gt l')
]

pub data Difficulty : Type 0 where
  easy normal expert : Difficulty

pub data LeaderboardUpdate : Type 0 where
  update : Difficulty → List LeaderboardEntry → LeaderboardUpdate

-- `HighscoreUpdate` of network.rs.
pub record HighscoreUpdate : Type 0 where
  pub difficulty : Text
  pub username : Text
  pub score : ℕ

-- An `update_item` request: the attribute `{difficulty}_highscore` of the user is put.
pub record ScoreWrite : Type 0 where
  pub email : Text
  pub attribute : Text
  pub value : ℕ

pub record Leaderboard : Type 0 where
  pub easy_leaderboard : List LeaderboardEntry
  pub normal_leaderboard : List LeaderboardEntry
  pub expert_leaderboard : List LeaderboardEntry
  pub last_update : ℕ
  pub leaderboard_span : ℕ
  -- what `leaderboard_updater` has sent to subscribers
  pub updates : List LeaderboardUpdate
  -- what the database has accepted
  pub writes : List ScoreWrite
  -- what `node.broadcast_message` has been given
  pub sent : List HighscoreUpdate

pub record LeaderboardView : Type 0 where
  pub easy_view : List LeaderboardEntry
  pub normal_view : List LeaderboardEntry
  pub expert_view : List LeaderboardEntry

abbrev pub board : Difficulty → Leaderboard → List LeaderboardEntry
board easy s = s.easy_leaderboard
board normal s = s.normal_leaderboard
board expert s = s.expert_leaderboard

abbrev pub set_board : Difficulty → List LeaderboardEntry → Leaderboard → Leaderboard
set_board easy l s = record s { easy_leaderboard = l }
set_board normal l s = record s { normal_leaderboard = l }
set_board expert l s = record s { expert_leaderboard = l }

-- The names by which the difficulties go in messages.
abbrev pub difficulty_name : Difficulty → Text
difficulty_name easy = bytes "easy"
difficulty_name normal = bytes "normal"
difficulty_name expert = bytes "expert"

-- `now` is `Instant::now()`. A send with no subscriber is ignored, as in the source.
unfoldable pub local_update_leaderboard :
    Difficulty → LeaderboardEntry → ℕ → Leaderboard → Leaderboard × Bool
local_update_leaderboard d entry now s =
    elim (update_entries s.leaderboard_span entry (board d s)) [
      | none ↦ (s, false)
      | some l ↦ (
        record (set_board d l s) { last_update = now; updates = s.updates ++ update d l ∷ [] },
        true,
      )
    ]

pub data AddLeaderboardEntryError : Type 0 where
  internal_error : AddLeaderboardEntryError

abbrev pub announce : Difficulty → LeaderboardEntry → Leaderboard × Bool → Leaderboard
announce d entry (s, false) = s
announce d entry (s, true) = record s {
  sent =
      s.sent
      ++ record { difficulty = difficulty_name d; username = entry.username; score = entry.score }
        ∷ [];
}

-- The accepted request.
abbrev pub put_score : Difficulty → Text → LeaderboardEntry → Leaderboard → Leaderboard
put_score d email entry s = record s {
  writes =
      s.writes
      ++ record {
        email = email;
        attribute = difficulty_name d ++ bytes "_highscore";
        value = entry.score;
      }
        ∷ [];
}

-- `add_leaderboard_entry`; `add_easy_entry` and its siblings are its three instances. Errors of the
-- broadcast are only logged. `accepted` is whether the database accepts the request.
unfoldable pub add_leaderboard_entry :
    Difficulty
    → Text
    → LeaderboardEntry
    → Bool
    → ℕ
    → Leaderboard
    → Leaderboard × Outcome AddLeaderboardEntryError (Unit {0})
add_leaderboard_entry d email entry false now s = (s, err internal_error)
add_leaderboard_entry d email entry true now s =
    (announce d entry (local_update_leaderboard d entry now (put_score d email entry s)), ok tt)

-- One message of the subscription to the sibling nodes, in the task that `new` spawns. A message
-- with another difficulty is logged and skipped.
unfoldable pub receive_update : HighscoreUpdate → ℕ → Leaderboard → Leaderboard
receive_update msg now s =
    let entry : LeaderboardEntry = record { score = msg.score; username = msg.username } in
    if text_eq msg.difficulty (bytes "easy")
    then (local_update_leaderboard easy entry now s).0
    else if text_eq msg.difficulty (bytes "normal")
    then (local_update_leaderboard normal entry now s).0
    else if text_eq msg.difficulty (bytes "expert")
    then (local_update_leaderboard expert entry now s).0
    else s

unfoldable pub get_leaderboard : Leaderboard → LeaderboardView
get_leaderboard s = record {
  easy_view = s.easy_leaderboard;
  normal_view = s.normal_leaderboard;
  expert_view = s.expert_leaderboard;
}

unfoldable pub get_leaderboard_since : ℕ → Leaderboard → Option LeaderboardView
unfolding get_leaderboard
get_leaderboard_since since s = if ltb since s.last_update then some (get_leaderboard s) else none

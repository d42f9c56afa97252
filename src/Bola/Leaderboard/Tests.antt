-- ===== src/Bola/Leaderboard/Tests.antt =====
-- A leaderboard of two places.
use mangle_apis.Base.{◌≤◌, ◌≡◌, refl, ◌⊎◌, true, some, List, [], ◌∷◌, arith, take}
use mangle_apis.Base.Text.{bytes, text_eq}
use mangle_apis.Base.Sort.{IsSorted, insert, sort}
use mangle_apis.Bola.Leaderboard.{
  LeaderboardEntry, entry_cmp, entry_gt, entry_ge, scan, last, set_last, place, update_entries,
  Difficulty, easy, normal, expert, HighscoreUpdate, Leaderboard, board, local_update_leaderboard,
  add_leaderboard_entry, receive_update,
}
use mangle_apis.Bola.Leaderboard.Ideal.Defs.{record_best, shown}
use mangle_apis.Bola.Leaderboard.Ideal.Refine.{shown-record_best}
use mangle_apis.Bola.Leaderboard.Invariant.{IsUnique, update_entries-IsValid}
use mangle_apis.Bola.Leaderboard.Service.{Ideals, ideal, submit, Shows, local_update-Shows}
use mangle_apis.Bola.Leaderboard.Siblings.{SameBoards, add-SameBoards}

abbrev anna : LeaderboardEntry
anna = record { score = 30; username = bytes "anna" }

abbrev bert : LeaderboardEntry
bert = record { score = 20; username = bytes "bert" }

abbrev carl : LeaderboardEntry
carl = record { score = 25; username = bytes "carl" }

abbrev bert_again : LeaderboardEntry
bert_again = record { score = 10; username = bytes "bert" }

abbrev two : List LeaderboardEntry
two = anna ∷ bert ∷ []

two-IsSorted : IsSorted entry_gt two
unfolding entry_gt entry_cmp
two-IsSorted = ((refl, tt), (tt, tt))

two-IsUnique : IsUnique two
unfolding text_eq
two-IsUnique = ((refl, tt), (tt, tt))

carl_enters : update_entries 2 carl two ≡ some (anna ∷ carl ∷ [])
unfolding update_entries scan place last set_last entry_ge entry_gt entry_cmp text_eq sort insert
carl_enters = refl

shown-record_best_example : shown 2 carl (take 2 two) ≡ take 2 (record_best carl two)
shown-record_best_example = shown-record_best 2 carl two (omega arith) two-IsSorted

update_entries-IsValid_example :
    IsSorted entry_gt (anna ∷ carl ∷ []) × IsUnique (anna ∷ carl ∷ []) × (2 ≤ 2)
update_entries-IsValid_example =
    update_entries-IsValid 2 carl two (omega arith) two-IsUnique (omega arith) carl_enters

abbrev node : Leaderboard
node = record {
  easy_leaderboard = two;
  normal_leaderboard = [];
  expert_leaderboard = [];
  last_update = 0;
  leaderboard_span = 2;
  updates = [];
  writes = [];
  sent = [];
}

abbrev ideals : Ideals
ideals = record { easy_ideal = two; normal_ideal = []; expert_ideal = [] }

ideals-IsSorted : (d : Difficulty) → IsSorted entry_gt (ideal d ideals)
ideals-IsSorted easy = two-IsSorted
ideals-IsSorted normal = tt
ideals-IsSorted expert = tt

boards_shown : (d : Difficulty) → board d node ≡ take 2 (ideal d ideals)
boards_shown easy = refl
boards_shown normal = refl
boards_shown expert = refl

node-Shows : Shows node ideals
node-Shows = record { span = omega arith; sorted = ideals-IsSorted; shows = boards_shown }

local_update-Shows_example :
    Shows (local_update_leaderboard easy carl 5 node).0 (submit easy carl ideals)
local_update-Shows_example = local_update-Shows carl 5 node ideals node-Shows easy

add-SameBoards_example :
    (((add_leaderboard_entry easy (bytes "c@x") carl true 5 node).0.sent ≡ [])
      × SameBoards (add_leaderboard_entry easy (bytes "c@x") carl true 5 node).0 node)
    ⊎ ((m : HighscoreUpdate) × ((add_leaderboard_entry easy (bytes "c@x") carl true 5 node).0.sent
          ≡ m ∷ [])
        × SameBoards
            (add_leaderboard_entry easy (bytes "c@x") carl true 5 node).0
            (receive_update m 6 node))
add-SameBoards_example =
    add-SameBoards easy (bytes "c@x") carl true 5 6 node node
      (record { same_span = refl; same_easy = refl; same_normal = refl; same_expert = refl })

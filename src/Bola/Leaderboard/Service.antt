-- ===== src/Bola/Leaderboard/Service.antt =====
-- The operations on the three boards of a node.
use mangle_apis.Base.{
  ℕ, ◌<◌, ◌≡◌, ap, ◌∙◌, ◌⊎◌, inl, inr, true, false, List, [], ◌∷◌, ◌++◌, arith, take,
}
use mangle_apis.Base.Sort.{IsSorted, insert-IsSorted}
use mangle_apis.Bola.Leaderboard.{
  LeaderboardEntry, entry_gt, Difficulty, easy, normal, expert, update, Leaderboard, board,
  local_update_leaderboard,
}
use mangle_apis.Bola.Leaderboard.Ideal.Defs.{lin, remove_user, record_best, shown}
use mangle_apis.Bola.Leaderboard.Ideal.Find.{record_best-cases}
use mangle_apis.Bola.Leaderboard.Ideal.Refine.{shown-record_best}
use mangle_apis.Bola.Leaderboard.Ideal.Steps.{remove_user-IsSorted}

-- The ideal boards of the three difficulties.
pub record Ideals : Type 0 where
  pub easy_ideal : List LeaderboardEntry
  pub normal_ideal : List LeaderboardEntry
  pub expert_ideal : List LeaderboardEntry

abbrev pub ideal : Difficulty → Ideals → List LeaderboardEntry
ideal easy i = i.easy_ideal
ideal normal i = i.normal_ideal
ideal expert i = i.expert_ideal

abbrev pub submit : Difficulty → LeaderboardEntry → Ideals → Ideals
submit easy e i = record i { easy_ideal = record_best e i.easy_ideal }
submit normal e i = record i { normal_ideal = record_best e i.normal_ideal }
submit expert e i = record i { expert_ideal = record_best e i.expert_ideal }

-- The state shows the first entries of sorted ideal boards.
pub record Shows (s : Leaderboard) (i : Ideals) : Type 0 where
  pub span : 0 < s.leaderboard_span
  pub sorted : (d : Difficulty) → IsSorted entry_gt (ideal d i)
  pub shows : (d : Difficulty) → board d s ≡ take s.leaderboard_span (ideal d i)

-- The effect of `local_update_leaderboard` on its board.
board-local_update :
    (d : Difficulty) (e : LeaderboardEntry) (now : ℕ) (s : Leaderboard)
    → board d (local_update_leaderboard d e now s).0 ≡ shown s.leaderboard_span e (board d s)
unfolding local_update_leaderboard
board-local_update easy e now s = ground arith
board-local_update normal e now s = ground arith
board-local_update expert e now s = ground arith

span-local_update :
    (d : Difficulty) (e : LeaderboardEntry) (now : ℕ) (s : Leaderboard)
    → (local_update_leaderboard d e now s).0.leaderboard_span ≡ s.leaderboard_span
unfolding local_update_leaderboard
span-local_update easy e now s = ground arith
span-local_update _ e now s = ground arith

IsSorted-record_best :
    (e : LeaderboardEntry) (h : List LeaderboardEntry)
    → IsSorted entry_gt h
    → IsSorted entry_gt (record_best e h)
IsSorted-record_best e h s = elim (record_best-cases e h) [
  | inl shape ↦ rw shape (
      insert-IsSorted entry_gt lin e (remove_user e.username h)
        (remove_user-IsSorted e.username h s))
  | inr (old, found, worse, same) ↦ rw same s
]

module _ (e : LeaderboardEntry) (now : ℕ) (s : Leaderboard) (i : Ideals) (h : Shows s i) where
  submit-IsSorted : (d k : Difficulty) → IsSorted entry_gt (ideal k (submit d e i))
  submit-IsSorted easy easy = IsSorted-record_best e i.easy_ideal (h.sorted easy)
  submit-IsSorted normal normal = IsSorted-record_best e i.normal_ideal (h.sorted normal)
  submit-IsSorted expert expert = IsSorted-record_best e i.expert_ideal (h.sorted expert)
  submit-IsSorted easy normal = h.sorted normal
  submit-IsSorted easy expert = h.sorted expert
  submit-IsSorted normal easy = h.sorted easy
  submit-IsSorted normal expert = h.sorted expert
  submit-IsSorted expert easy = h.sorted easy
  submit-IsSorted expert normal = h.sorted normal

  own_board :
      (d : Difficulty)
      → board d (local_update_leaderboard d e now s).0
        ≡ take s.leaderboard_span (record_best e (ideal d i))
  own_board d =
      board-local_update d e now s
      ∙ (ap (shown s.leaderboard_span e) (h.shows d)
          ∙ shown-record_best s.leaderboard_span e (ideal d i) h.span (h.sorted d))

  submit-shows :
      (d k : Difficulty)
      → board k (local_update_leaderboard d e now s).0
        ≡ take s.leaderboard_span (ideal k (submit d e i))
  unfolding local_update_leaderboard
  submit-shows easy easy = own_board easy
  submit-shows normal normal = own_board normal
  submit-shows expert expert = own_board expert
  submit-shows _ _ = ground (arith, h.shows easy, h.shows normal, h.shows expert)

  -- If a node's boards show the first entries of sorted ideal boards, then after a submission to one
  -- difficulty they show those of the ideal boards after that submission; the other boards stay.
  pub local_update-Shows :
      (d : Difficulty) → Shows (local_update_leaderboard d e now s).0 (submit d e i)
  local_update-Shows d = record {
    span = rw (span-local_update d e now s) h.span;
    sorted = submit-IsSorted d;
    shows = λ k. rw (span-local_update d e now s) (submit-shows d k);
  }

-- Where `local_update_leaderboard` returns false it has changed nothing. Where it returns true, it has
-- set the time of the update and sent subscribers one message, with the new vector of the board.
pub local_update-result :
    (d : Difficulty) (e : LeaderboardEntry) (now : ℕ) (s : Leaderboard)
    → (((local_update_leaderboard d e now s).1 ≡ false)
        × ((local_update_leaderboard d e now s).0 ≡ s))
      ⊎ (((local_update_leaderboard d e now s).1 ≡ true)
          × ((local_update_leaderboard d e now s).0.last_update ≡ now)
          × ((local_update_leaderboard d e now s).0.updates
              ≡ s.updates ++ update d (board d (local_update_leaderboard d e now s).0) ∷ []))
unfolding local_update_leaderboard
local_update-result easy e now s = ground arith
local_update-result normal e now s = ground arith
local_update-result expert e now s = ground arith

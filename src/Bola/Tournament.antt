-- ===== src/Bola/Tournament.antt =====
-- bola-api/src/tournament.rs: the week of a tournament. Times are in seconds. The clock is the list of
-- what the loop sees in its rounds; the random generator (crate rand) is a parameter.
mod Laws
mod Tests
use mangle_apis.Base.{
  ℕ, ◌+◌, ◌*◌, ◌/◌, ◌%◌, Bool, Option, none, some, List, [], ◌∷◌, if◌then◌else◌, u64_mod,
}

-- One round: `start_time.elapsed()`, which fails before the start, and whether the loop has run for
-- `GET_TOURNAMENT_ERR_DURATION`.
pub record Look : Type 0 where
  pub elapsed : Option ℕ
  pub timed_out : Bool

-- `start_time_duration`; `start_time` is that after the Unix epoch.
pub record Tournament : Type 0 where
  pub start_time_duration : ℕ

pub record TournamentData : Type 0 where
  pub week : ℕ
  pub seed : ℕ
  pub start_time : ℕ
  pub end_time : ℕ

-- How the loop ends, where the looks at the clock do not run out.
pub data Wait : Type 0 where
  started : ℕ → Wait
  gave_up : Wait
  still_waiting : Wait

unfoldable pub wait_elapsed : List Look → Wait
wait_elapsed [] = still_waiting
wait_elapsed (look ∷ looks) =
    let next = wait_elapsed looks in
    elim look.elapsed [
      | some elapsed ↦ started elapsed
      | none ↦ if look.timed_out then gave_up else next
    ]

-- The multiplication and addition of `u64`, which wrap in a release build.
abbrev pub wrap : ℕ → ℕ
wrap n = n % u64_mod

abbrev pub week_start : ℕ → ℕ → ℕ
week_start week start = wrap (wrap (wrap (wrap (week * 3600) * 24) * 7) + start)

unfoldable pub tournament_data : (ℕ → ℕ) → Tournament → ℕ → TournamentData
tournament_data next_u32 self elapsed =
    let week = elapsed / 3600 / 24 / 7 in
    record {
      week = week;
      seed = next_u32 week;
      start_time = week_start week self.start_time_duration;
      end_time = week_start (wrap (week + 1)) self.start_time_duration;
    }

unfoldable pub get_tournament_week : (ℕ → ℕ) → Tournament → List Look → Option TournamentData
get_tournament_week next_u32 self looks = elim (wait_elapsed looks) [
  | started elapsed ↦ some (tournament_data next_u32 self elapsed)
  | gave_up ↦ none
  | still_waiting ↦ none
]

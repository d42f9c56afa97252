-- ===== src/Bola/Tournament/Laws.antt =====
-- The bounds of a tournament's week.
use mangle_apis.Base.{
  ℕ, ◌+◌, ◌*◌, ◌/◌, ◌≤◌, ◌<◌, ◌≡◌, refl, sym, ap, ◌∙◌, Bool, false, none, some, List, [], ◌∷◌, ◌++◌,
  All, arith, u64_mod,
}
use mangle_apis.Bola.Tournament.{
  Look, Tournament, TournamentData, started, wait_elapsed, wrap, week_start, tournament_data,
  get_tournament_week,
}

-- A look before the start, and before the time is out.
abbrev pub TooEarly : Look → Type 0
TooEarly look = (look.elapsed ≡ none) × (look.timed_out ≡ false)

wait-TooEarly :
    (early later : List Look)
    → All TooEarly early
    → wait_elapsed (early ++ later) ≡ wait_elapsed later
unfolding wait_elapsed
wait-TooEarly [] later h = refl
wait-TooEarly (look ∷ early) later h =
    rw (h.0.0, wait_elapsed) (rw h.0.1 (wait-TooEarly early later h.1))

wrap_small : (n : ℕ) → n < u64_mod → wrap n ≡ n
wrap_small n h = omega arith

week_start_lem :
    (week start : ℕ)
    → week * 604800 + start < u64_mod
    → week_start week start ≡ week * 604800 + start
week_start_lem week start h = omega arith

-- Once the tournament has started, whatever the looks before the start were, the answer is the week that
-- the present lies in, if its end is within 64 bits: a week of 604800 seconds that starts a whole number
-- of weeks after the start, no later than now, and ends later than now, where the next week starts.
pub get_tournament_week_lem :
    (next_u32 : ℕ → ℕ) (self : Tournament) (early later : List Look) (elapsed : ℕ)
    (timed_out : Bool)
    → All TooEarly early
    → elapsed + 604800 + self.start_time_duration < u64_mod
    → (found_week : TournamentData) × (get_tournament_week next_u32 self
          (early ++ record { elapsed = some elapsed; timed_out = timed_out } ∷ later)
        ≡ some found_week)
      × (found_week.start_time ≡ found_week.week * 604800 + self.start_time_duration)
      × (found_week.end_time ≡ found_week.start_time + 604800)
      × (found_week.start_time ≤ self.start_time_duration + elapsed)
      × (self.start_time_duration + elapsed < found_week.end_time)
unfolding get_tournament_week
get_tournament_week_lem next_u32 self early later elapsed timed_out h fits =
    (tournament_data next_u32 self elapsed, found, start_at, end_at, begun, not_over)
  where
    week : ℕ
    week = elapsed / 3600 / 24 / 7

    look : Look
    look = record { elapsed = some elapsed; timed_out = timed_out }

    seen : wait_elapsed (early ++ look ∷ later) ≡ started elapsed
    seen = wait-TooEarly early (look ∷ later) h ∙ (unfold wait_elapsed in refl)

    found :
        get_tournament_week next_u32 self (early ++ look ∷ later)
        ≡ some (tournament_data next_u32 self elapsed)
    found = rw (seen, get_tournament_week) refl

    low : week * 604800 ≤ elapsed
    low = omega arith

    high : elapsed < (week + 1) * 604800
    high = omega arith

    from : week_start week self.start_time_duration ≡ week * 604800 + self.start_time_duration
    from = week_start_lem week self.start_time_duration (omega (arith, low))

    next : wrap (week + 1) ≡ week + 1
    next = wrap_small (week + 1) (omega (arith, low))

    until :
        week_start (wrap (week + 1)) self.start_time_duration
        ≡ week * 604800 + self.start_time_duration + 604800
    until =
        ap (λ w. week_start w self.start_time_duration) next
        ∙ week_start_lem (week + 1) self.start_time_duration (omega (arith, low))
        ∙ omega arith

    start_at :
        (tournament_data next_u32 self elapsed).start_time
        ≡ (tournament_data next_u32 self elapsed).week * 604800 + self.start_time_duration
    start_at = unfold tournament_data in from

    end_at :
        (tournament_data next_u32 self elapsed).end_time
        ≡ (tournament_data next_u32 self elapsed).start_time + 604800
    end_at = unfold tournament_data in (until ∙ ap (λ t. t + 604800) (sym from))

    begun : (tournament_data next_u32 self elapsed).start_time ≤ self.start_time_duration + elapsed
    begun = unfold tournament_data in omega (arith, from, low)

    not_over : self.start_time_duration + elapsed < (tournament_data next_u32 self elapsed).end_time
    not_over = unfold tournament_data in omega (arith, until, high)

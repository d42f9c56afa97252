-- ===== src/Bola/Tournament/Tests.antt =====
-- A tournament in its second week, asked for a moment before it has started by the clock.
use mangle_apis.Base.{◌+◌, ◌*◌, ◌≤◌, ◌<◌, ◌≡◌, refl, false, none, some, List, [], ◌∷◌, arith}
use mangle_apis.Bola.Tournament.{Look, Tournament, TournamentData, get_tournament_week}
use mangle_apis.Bola.Tournament.Laws.{get_tournament_week_lem}

abbrev early : List Look
early = record { elapsed = none; timed_out = false } ∷ []

abbrev tournament : Tournament
tournament = record { start_time_duration = 1700000000 }

get_tournament_week_lem_example :
    (found_week : TournamentData) × (get_tournament_week
        (λ week. week)
        tournament
        (record { elapsed = none; timed_out = false }
          ∷ record { elapsed = some 700000; timed_out = false }
          ∷ [])
      ≡ some found_week)
    × (found_week.start_time ≡ found_week.week * 604800 + 1700000000)
    × (found_week.end_time ≡ found_week.start_time + 604800)
    × (found_week.start_time ≤ 1700000000 + 700000)
    × (1700000000 + 700000 < found_week.end_time)
get_tournament_week_lem_example =
    get_tournament_week_lem (λ week. week) tournament early [] 700000 false ((refl, refl), tt)
      (omega arith)

-- ===== src/Bola/Leaderboard/Ideal/Refine.antt =====
-- A leaderboard and the ideal board after an update.
use mangle_apis.Base.{
  ℕ, zero, suc, ◌≤◌, ◌<◌, ◌≡◌, refl, sym, ◌⊎◌, inl, inr, true, false, none, some, List, [], ◌∷◌,
  ◌++◌, arith, leb, Bool-cases, length, take, take_of_length-le, length-take-min, take-nil,
}
use mangle_apis.Base.Sort.{
  insert, sort, IsSorted, sort_of_IsSorted, sort-append, take-insert-take, length-insert,
  gt-of_gt_le,
}
use mangle_apis.Bola.Leaderboard.{
  LeaderboardEntry, entry_gt, entry_ge, Scan, stale, replaced, absent, scan, last, set_last, place,
  settle, update_entries,
}
use mangle_apis.Bola.Leaderboard.Order.{entry_ge_iff, entry_gt_of_not_ge}
use mangle_apis.Bola.Leaderboard.Ideal.Defs.{lin, find_user, remove_user, record_best, shown}
use mangle_apis.Bola.Leaderboard.Ideal.Steps.{
  scan-replaced, take-remove_user, EndsIn, insert_low, insert_high,
}
use mangle_apis.Bola.Leaderboard.Ideal.Find.{
  stale-find_user, replaced-find_user, below_lowest, not_found, find_user-name, not_higher,
  record_best_worse, record_best_better, record_best-cases,
}

last-some :
    (x : LeaderboardEntry) (l : List LeaderboardEntry)
    → (lowest : LeaderboardEntry) × (last (x ∷ l) ≡ some lowest)
unfolding last
last-some x [] = (x, refl)
last-some x (y ∷ l) = last-some y l

module _ (n : ℕ) (e : LeaderboardEntry) (h : List LeaderboardEntry) (s : IsSorted entry_gt h)
    (p : scan e (take (suc n) h) ≡ absent) where
  -- Inserting below a user whom the loop does not find.
  take-record_best :
      record_best e h ≡ insert entry_gt e (remove_user e.username h)
      → take (suc n) (record_best e h) ≡ take (suc n) (insert entry_gt e h)
  take-record_best shape = rw (
    shape,
    ← take-insert-take entry_gt (suc n) e (remove_user e.username h),
    take-remove_user (suc n) e h p,
    take-insert-take entry_gt (suc n) e h,
  )

  shown_low :
      (lowest : LeaderboardEntry)
      → suc n ≤ length h
      → EndsIn n h lowest
      → entry_ge lowest e ≡ true
      → take (suc n) h ≡ take (suc n) (record_best e h)
  shown_low lowest full ends low = elim (record_best-cases e h) [
    | inl shape ↦
        rw (take-record_best shape)
          (sym (insert_low n e lowest h s p full ends (entry_ge_iff lowest e low)))
    | inr (old, found, worse, same) ↦ rw same
  ]

  shown_high :
      (lowest : LeaderboardEntry)
      → suc n ≤ length h
      → EndsIn n h lowest
      → entry_ge lowest e ≡ false
      → sort entry_gt (set_last (take (suc n) h) e) ≡ take (suc n) (record_best e h)
  shown_high lowest full ends notge =
      let high = entry_gt_of_not_ge lowest e notge in
      elim (record_best-cases e h) [
        | inl shape ↦ rw (take-record_best shape) (insert_high n e lowest h s full ends high)
        | inr (old, found, worse, same) ↦ cc (
          gt-of_gt_le entry_gt lin lowest e old high (below_lowest n e lowest old h s p ends found),
          not_higher e old (find_user-name e.username h old found) worse,
        )
      ]

  shown_room :
      length h ≤ n → sort entry_gt (take (suc n) h ++ e ∷ []) ≡ take (suc n) (record_best e h)
  shown_room room = elim (record_best-cases e h) [
    | inl shape ↦
        rw
          (
            take-record_best shape,
            take_of_length-le (suc n) h (omega arith),
            sort-append entry_gt lin h e,
            sort_of_IsSorted entry_gt lin h s,
          )
          (sym (
            take_of_length-le (suc n) (insert entry_gt e h)
              (omega (arith, length-insert entry_gt e h))))
    | inr (old, found, worse, same) ↦ cc (found, not_found (suc n) e h (omega arith) p)
  ]

-- What `update_entries` comes to on a vector that is not empty.
shown-settle :
    (n : ℕ) (e : LeaderboardEntry) (x : LeaderboardEntry) (l : List LeaderboardEntry)
    → shown n e (x ∷ l)
      ≡ (elim (settle n e (x ∷ l) (scan e (x ∷ l))) [ none ↦ x ∷ l | some l' ↦ sort entry_gt l' ])
unfolding update_entries
shown-settle n e x l = ground arith

Scan-cases :
    (r : Scan) → (r ≡ stale) ⊎ ((l : List LeaderboardEntry) × (r ≡ replaced l)) ⊎ (r ≡ absent)
Scan-cases stale = inl refl
Scan-cases (replaced l) = inr (inl (l, refl))
Scan-cases absent = inr (inr refl)

shown_absent :
    (n : ℕ) (e : LeaderboardEntry) (x : LeaderboardEntry) (h : List LeaderboardEntry)
    → IsSorted entry_gt (x ∷ h)
    → scan e (x ∷ take n h) ≡ absent
    → shown (suc n) e (x ∷ take n h) ≡ take (suc n) (record_best e (x ∷ h))
unfolding place
shown_absent n e x h s p =
    rw (shown-settle (suc n) e x (take n h), p)
      (elim (Bool-cases (leb (suc n) (suc (length (take n h))))) [
        | inl full ↦
            let (lowest, ends) = last-some x (take n h) in
            let enough : suc n ≤ suc (length h) = ground (arith, length-take-min n h) in
            elim (Bool-cases (entry_ge lowest e)) [
              | inl low ↦ rw (full, ends, low) (shown_low n e (x ∷ h) s p lowest enough ends low)
              | inr high ↦
                  rw (full, ends, high) (shown_high n e (x ∷ h) s p lowest enough ends high)
            ]
        | inr room ↦ rw room (shown_room n e (x ∷ h) s p (ground (arith, length-take-min n h)))
      ])

-- On a board of any span above zero that shows the first entries of a sorted ideal board, an update
-- leaves what the ideal board shows after the same submission: the board holds the best entries,
-- each user's best only, whatever the code's branch.
pub shown-record_best :
    (n : ℕ) (e : LeaderboardEntry) (h : List LeaderboardEntry)
    → 0 < n
    → IsSorted entry_gt h
    → shown n e (take n h) ≡ take n (record_best e h)
shown-record_best zero e h pos s = absurd (omega arith)
shown-record_best (suc n) e [] pos s =
    unfold update_entries record_best find_user sort insert in
    rw (take-nil {A = LeaderboardEntry} n)
shown-record_best (suc n) e (x ∷ h) pos s = elim (Scan-cases (scan e (x ∷ take n h))) [
  | inl p ↦
      let (old, found, worse) = stale-find_user (suc n) e (x ∷ h) p in
      rw (shown-settle (suc n) e x (take n h), p) (rw (record_best_worse e (x ∷ h) old found worse))
  | inr (inl (l, p)) ↦
      let (old, found, better) = replaced-find_user (suc n) e (x ∷ h) l p in
      rw (shown-settle (suc n) e x (take n h), p)
        (rw (scan-replaced (suc n) e (x ∷ h) s p)
          (rw (record_best_better e (x ∷ h) old found better)))
  | inr (inr p) ↦ shown_absent n e x h s p
]

-- ===== src/Bola/Leaderboard/Ideal/Find.antt =====
-- What the loop of a leaderboard finds, and what the ideal board does with it.
use mangle_apis.Base.{
  ℕ, zero, suc, ◌≤◌, ◌≡◌, refl, ◌⊎◌, inl, inr, true, false, none, some, List, [], ◌∷◌, arith, leb,
  Bool-cases, Option-cases, length, take,
}
use mangle_apis.Base.Text.{Text, text_eq, text_eq_iff}
use mangle_apis.Base.Sort.{insert, AtMost, IsSorted}
use mangle_apis.Bola.Leaderboard.{
  LeaderboardEntry, entry_cmp, entry_gt, Scan, stale, replaced, absent, keep, scan, last,
}
use mangle_apis.Bola.Leaderboard.Order.{cmp_refl}
use mangle_apis.Bola.Leaderboard.Ideal.Defs.{find_user, remove_user, record_best}
use mangle_apis.Bola.Leaderboard.Ideal.Steps.{absent_inv, EndsIn}

-- What the loop finds in the first `n` entries of a board, it finds in the board.
pub stale-find_user :
    (n : ℕ) (e : LeaderboardEntry) (h : List LeaderboardEntry)
    → scan e (take n h) ≡ stale
    → (old : LeaderboardEntry) × (find_user e.username h ≡ some old)
      × (leb e.score old.score ≡ true)
unfolding scan find_user
stale-find_user zero e h p = cc
stale-find_user (suc n) e [] p = cc
stale-find_user (suc n) e (x ∷ h) p = elim (Bool-cases (text_eq x.username e.username)) [
  | inl same ↦ (x, rw same, ground arith)
  | inr other ↦
      let (old, found, worse) =
        stale-find_user n e h (keep_stale x (scan e (take n h)) (rw other at p)) in
      (old, rw other found, worse)
]
  where
    keep_stale : (s : LeaderboardEntry) (r : Scan) → keep s r ≡ stale → r ≡ stale
    keep_stale s stale q = refl
    keep_stale s (replaced l) q = cc
    keep_stale s absent q = cc

pub replaced-find_user :
    (n : ℕ) (e : LeaderboardEntry) (h l : List LeaderboardEntry)
    → scan e (take n h) ≡ replaced l
    → (old : LeaderboardEntry) × (find_user e.username h ≡ some old)
      × (leb e.score old.score ≡ false)
unfolding scan find_user
replaced-find_user zero e h l p = cc
replaced-find_user (suc n) e [] l p = cc
replaced-find_user (suc n) e (x ∷ h) l p = elim (Bool-cases (text_eq x.username e.username)) [
  | inl same ↦ (x, rw same, ground arith)
  | inr other ↦
      let (l', found) = keep_replaced x (scan e (take n h)) (rw other at p) in
      let (old, there, better) = replaced-find_user n e h l' found in (old, rw other there, better)
]
  where
    keep_replaced :
        (s : LeaderboardEntry) (r : Scan)
        → keep s r ≡ replaced l
        → (l' : List LeaderboardEntry) × (r ≡ replaced l')
    keep_replaced s stale q = cc
    keep_replaced s (replaced l') q = (l', refl)
    keep_replaced s absent q = cc

AtMost-find_user :
    (u : Text) (x old : LeaderboardEntry) (h : List LeaderboardEntry)
    → AtMost entry_gt x h
    → find_user u h ≡ some old
    → entry_gt old x ≡ false
unfolding find_user
AtMost-find_user u x old [] m p = cc
AtMost-find_user u x old (y ∷ h) m p = elim (Bool-cases (text_eq y.username u)) [
  | inl same ↦ let it : old ≡ y = ground arith in rw it m.0
  | inr other ↦ AtMost-find_user u x old h m.1 (rw other at p)
]

-- A user whom the loop does not find may still be further down, with an entry no higher than the
-- lowest that is shown.
pub below_lowest :
    (n : ℕ) (e lowest old : LeaderboardEntry) (h : List LeaderboardEntry)
    → IsSorted entry_gt h
    → scan e (take (suc n) h) ≡ absent
    → EndsIn n h lowest
    → find_user e.username h ≡ some old
    → entry_gt old lowest ≡ false
unfolding find_user last
below_lowest n e lowest old [] s p ends found = cc
below_lowest zero e lowest old (x ∷ h) s p ends found =
    let (other, _) = absent_inv e x [] p in
    let same : lowest ≡ x = cc in
    rw same (AtMost-find_user e.username x old h s.0 (rw other at found))
below_lowest (suc n) e lowest old (x ∷ []) s p ends found =
    let (other, _) = absent_inv e x [] p in absurd (ground arith)
below_lowest (suc n) e lowest old (x ∷ y ∷ h) s p ends found =
    let (other, rest) = absent_inv e x (y ∷ take n h) p in
    below_lowest n e lowest old (y ∷ h) s.1 rest ends (rw other at found)

pub not_found :
    (n : ℕ) (e : LeaderboardEntry) (h : List LeaderboardEntry)
    → length h ≤ n
    → scan e (take n h) ≡ absent
    → find_user e.username h ≡ none
unfolding find_user
not_found n e [] short p = refl
not_found zero e (x ∷ h) short p = absurd (omega arith)
not_found (suc n) e (x ∷ h) short p =
    let (other, rest) = absent_inv e x (take n h) p in rw other (not_found n e h (omega arith) rest)

pub find_user-name :
    (u : Text) (h : List LeaderboardEntry) (old : LeaderboardEntry)
    → find_user u h ≡ some old
    → old.username ≡ u
unfolding find_user
find_user-name u [] old p = cc
find_user-name u (x ∷ h) old p = ground (arith, find_user-name u h old, text_eq_iff x.username u)

remove_user-absent :
    (u : Text) (h : List LeaderboardEntry) → find_user u h ≡ none → remove_user u h ≡ h
unfolding find_user remove_user
remove_user-absent u [] p = refl
remove_user-absent u (x ∷ h) p = ground (arith, remove_user-absent u h)

-- A score that is no better does not rank higher.
pub not_higher :
    (e old : LeaderboardEntry)
    → old.username ≡ e.username
    → leb e.score old.score ≡ true
    → entry_gt e old ≡ false
unfolding entry_gt entry_cmp
not_higher e old name worse = rw name (ground (arith, cmp_refl e.username))

module _ (e : LeaderboardEntry) (h : List LeaderboardEntry) (old : LeaderboardEntry)
    (found : find_user e.username h ≡ some old) where
  pub record_best_worse : leb e.score old.score ≡ true → record_best e h ≡ h
  unfolding record_best
  record_best_worse worse = rw (found, record_best) (rw worse)

  pub record_best_better :
      leb e.score old.score ≡ false → record_best e h ≡ insert entry_gt e (remove_user e.username h)
  unfolding record_best
  record_best_better better = rw (found, record_best) (rw better)

-- The ideal board after a submission: either the submission is inserted, the user's former entry
-- removed, or the user had an entry that is no worse.
pub record_best-cases :
    (e : LeaderboardEntry) (h : List LeaderboardEntry)
    → (record_best e h ≡ insert entry_gt e (remove_user e.username h))
      ⊎ ((old : LeaderboardEntry) × (find_user e.username h ≡ some old)
          × (leb e.score old.score ≡ true)
          × (record_best e h ≡ h))
unfolding record_best
record_best-cases e h = elim (Option-cases (find_user e.username h)) [
  | inl new ↦ inl (rw (remove_user-absent e.username h new) (rw (new, record_best)))
  | inr (old, found) ↦ elim (Bool-cases (leb e.score old.score)) [
    | inl worse ↦ inr (old, found, worse, record_best_worse e h old found worse)
    | inr better ↦ inl (record_best_better e h old found better)
  ]
]

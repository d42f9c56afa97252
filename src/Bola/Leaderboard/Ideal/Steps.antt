-- ===== src/Bola/Leaderboard/Ideal/Steps.antt =====
-- How the code's ways to change a vector compare with an insertion into the ideal board.
use mangle_apis.Base.{
  ℕ, zero, suc, ◌≤◌, ◌≡◌, refl, ap, inl, inr, true, false, some, List, [], ◌∷◌, arith, leb,
  Bool-cases, length, take, take-nil,
}
use mangle_apis.Base.Text.{Text, text_eq, text_eq_refl}
use mangle_apis.Base.Sort.{
  insert, sort, AtMost, IsSorted, insert_comm, insert_top, sort_of_IsSorted, AtMost-take,
  AtMost-weaken, le_trans, take-IsSorted,
}
use mangle_apis.Bola.Leaderboard.{
  LeaderboardEntry, entry_cmp, entry_gt, Scan, stale, replaced, absent, keep, scan, last, set_last,
}
use mangle_apis.Bola.Leaderboard.Ideal.Defs.{lin, remove_user}

pub AtMost-remove_user :
    (x : LeaderboardEntry) (u : Text) (l : List LeaderboardEntry)
    → AtMost entry_gt x l
    → AtMost entry_gt x (remove_user u l)
unfolding remove_user
AtMost-remove_user x u [] h = tt
AtMost-remove_user x u (y ∷ l) h = elim (Bool-cases (text_eq y.username u)) [
  | inl same ↦ rw same h.1
  | inr other ↦ rw other (h.0, AtMost-remove_user x u l h.1)
]

pub remove_user-IsSorted :
    (u : Text) (l : List LeaderboardEntry)
    → IsSorted entry_gt l
    → IsSorted entry_gt (remove_user u l)
unfolding remove_user
remove_user-IsSorted u [] s = tt
remove_user-IsSorted u (x ∷ l) s = elim (Bool-cases (text_eq x.username u)) [
  | inl same ↦ rw same s.1
  | inr other ↦ rw other (AtMost-remove_user x u l s.0, remove_user-IsSorted u l s.1)
]

-- A better score of the same user ranks higher.
pub gt_same_user : (e x : LeaderboardEntry) → leb e.score x.score ≡ false → entry_gt e x ≡ true
unfolding entry_gt entry_cmp
gt_same_user e x h = ground arith

-- To insert `x` into the first items, when it is the second greatest at the least.
take-insert-second :
    (n : ℕ) (x e : LeaderboardEntry) (r : List LeaderboardEntry)
    → AtMost entry_gt x r
    → insert entry_gt x (take (suc n) (insert entry_gt e r))
      ≡ take (suc (suc n)) (insert entry_gt x (insert entry_gt e r))
unfolding insert
take-insert-second n x e [] h =
    rw (take-nil {A = LeaderboardEntry} n) (ground (arith, take-nil {A = LeaderboardEntry} n))
take-insert-second n x e (y ∷ r) h = elim (Bool-cases (entry_gt y e)) [
  | inl up ↦ rw (up, h.0)
  | inr low ↦ elim (Bool-cases (entry_gt e x)) [
    | inl above ↦ rw (
      low,
      above,
      insert_top entry_gt lin x (take n (y ∷ r)) (AtMost-take entry_gt x n (y ∷ r) h),
      h.0,
    )
    | inr below ↦ rw (low, below)
  ]
]

pub keep_inv :
    (x : LeaderboardEntry) (r : Scan) {l : List LeaderboardEntry}
    → keep x r ≡ replaced l
    → (l' : List LeaderboardEntry) × (r ≡ replaced l') × (l ≡ x ∷ l')
keep_inv x stale p = cc
keep_inv x (replaced l') p = (l', refl, cc)
keep_inv x absent p = cc

-- The user's entry is replaced in the first `n`.
pub scan-replaced :
    (n : ℕ) (e : LeaderboardEntry) (h : List LeaderboardEntry) {l : List LeaderboardEntry}
    → IsSorted entry_gt h
    → scan e (take n h) ≡ replaced l
    → sort entry_gt l ≡ take n (insert entry_gt e (remove_user e.username h))
unfolding scan remove_user sort
scan-replaced zero e h s p = cc
scan-replaced (suc n) e [] s p = cc
scan-replaced (suc n) e (x ∷ h) {l} s p = elim (Bool-cases (text_eq x.username e.username)) [
  | inl same ↦
      let better : leb e.score x.score ≡ false = ground arith in
      let found : l ≡ e ∷ take n h = ground arith in
      let above : AtMost entry_gt e h =
        AtMost-weaken entry_gt lin e x h (lin.asym e x (gt_same_user e x better)) s.0 in
      rw (
        same,
        found,
        sort_of_IsSorted entry_gt lin (take n h) (take-IsSorted entry_gt n h s.1),
        insert_top entry_gt lin e (take n h) (AtMost-take entry_gt e n h above),
        insert_top entry_gt lin e h above,
      )
  | inr other ↦ rw other (go n (rw other at p) (λ l'. scan-replaced n e h {l = l'} s.1))
]
  where
    r : List LeaderboardEntry
    r = remove_user e.username h

    go :
        (m : ℕ)
        → keep x (scan e (take m h)) ≡ replaced l
        → ((l' : List LeaderboardEntry)
            → scan e (take m h) ≡ replaced l'
            → sort entry_gt l' ≡ take m (insert entry_gt e r))
        → sort entry_gt l ≡ take (suc m) (insert entry_gt e (x ∷ r))
    go zero q ih = cc
    go (suc m) q ih =
        let (l', found, shape) = keep_inv x (scan e (take (suc m) h)) q in
        let top : AtMost entry_gt x r = AtMost-remove_user x e.username h s.0 in
        rw (
          shape,
          ih l' found,
          take-insert-second m x e r top,
          insert_comm entry_gt lin x e r,
          insert_top entry_gt lin x r top,
        )

pub keep_absent : (x : LeaderboardEntry) (r : Scan) → keep x r ≡ absent → r ≡ absent
keep_absent x stale p = cc
keep_absent x (replaced l) p = cc
keep_absent x absent p = refl

-- Where the loop finds no entry of the user, nothing is removed from the first `n`.
pub take-remove_user :
    (n : ℕ) (e : LeaderboardEntry) (h : List LeaderboardEntry)
    → scan e (take n h) ≡ absent
    → take n (remove_user e.username h) ≡ take n h
unfolding scan remove_user
take-remove_user zero e h p = refl
take-remove_user (suc n) e [] p = refl
take-remove_user (suc n) e (x ∷ h) p = elim (Bool-cases (text_eq x.username e.username)) [
  | inl same ↦ absurd (ground arith)
  | inr other ↦
      rw other
        (ap (◌∷◌ x) (take-remove_user n e h (keep_absent x (scan e (take n h)) (rw other at p))))
]

-- The first `n + 1` entries end in `lowest`.
abbrev pub EndsIn : ℕ → List LeaderboardEntry → LeaderboardEntry → Type 0
EndsIn n h lowest = last (take (suc n) h) ≡ some lowest

pub absent_inv :
    (e x : LeaderboardEntry) (l : List LeaderboardEntry)
    → scan e (x ∷ l) ≡ absent
    → (text_eq x.username e.username ≡ false) × (scan e l ≡ absent)
unfolding scan
absent_inv e x l p = elim (Bool-cases (text_eq x.username e.username)) [
  | inl same ↦ absurd (ground arith)
  | inr other ↦ (other, keep_absent x (scan e l) (rw other at p))
]

ne_user :
    (e x : LeaderboardEntry)
    → text_eq x.username e.username ≡ false
    → entry_gt e x ≡ false
    → entry_gt x e ≡ true
ne_user e x other low = elim (Bool-cases (entry_gt x e)) [
  | inl up ↦ up
  | inr same ↦ cc (
    other,
    text_eq_refl x.username,
    ap (λ (y : LeaderboardEntry). text_eq x.username y.username) (lin.connex e x low same),
  )
]

pub last-AtMost :
    (x lowest y : LeaderboardEntry) (l : List LeaderboardEntry)
    → AtMost entry_gt x (y ∷ l)
    → last (y ∷ l) ≡ some lowest
    → entry_gt lowest x ≡ false
unfolding last
last-AtMost x lowest y [] h e = let same : lowest ≡ y = cc in rw same h.0
last-AtMost x lowest y (z ∷ l) h e = last-AtMost x lowest z l h.1 e

-- An entry that does not beat the lowest of a full board is not among the first.
pub insert_low :
    (n : ℕ) (e lowest : LeaderboardEntry) (h : List LeaderboardEntry)
    → IsSorted entry_gt h
    → scan e (take (suc n) h) ≡ absent
    → suc n ≤ length h
    → EndsIn n h lowest
    → entry_gt e lowest ≡ false
    → take (suc n) (insert entry_gt e h) ≡ take (suc n) h
unfolding insert last
insert_low n e lowest [] s p full ends low = absurd (omega arith)
insert_low zero e lowest (x ∷ h) s p full ends low =
    let (other, _) = absent_inv e x [] p in
    let same : x ≡ lowest = cc in rw (ne_user e x other (rw same low))
insert_low (suc n) e lowest (x ∷ []) s p full ends low = absurd (omega arith)
insert_low (suc n) e lowest (x ∷ y ∷ h) s p full ends low =
    let (other, rest) = absent_inv e x (y ∷ take n h) p in
    let below : entry_gt lowest x ≡ false =
      last-AtMost x lowest y (take n h) (AtMost-take entry_gt x (suc n) (y ∷ h) s.0) ends in
    rw (ne_user e x other (le_trans entry_gt lin x lowest e below low))
      (ap (◌∷◌ x) (insert_low n e lowest (y ∷ h) s.1 rest (omega arith) ends low))

-- One that does takes the place of the lowest.
pub insert_high :
    (n : ℕ) (e lowest : LeaderboardEntry) (h : List LeaderboardEntry)
    → IsSorted entry_gt h
    → suc n ≤ length h
    → EndsIn n h lowest
    → entry_gt e lowest ≡ true
    → sort entry_gt (set_last (take (suc n) h) e) ≡ take (suc n) (insert entry_gt e h)
unfolding sort set_last last
insert_high n e lowest [] s full ends high = absurd (omega arith)
insert_high zero e lowest (x ∷ h) s full ends high =
    let same : x ≡ lowest = cc in
    let down : entry_gt x e ≡ false = lin.asym e x (rw same high) in unfold insert in rw down
insert_high (suc n) e lowest (x ∷ []) s full ends high = absurd (omega arith)
insert_high (suc n) e lowest (x ∷ y ∷ h) s full ends high = rw (
  insert_high n e lowest (y ∷ h) s.1 (omega arith) ends high,
  take-insert-second n x e (y ∷ h) s.0,
  insert_comm entry_gt lin x e (y ∷ h),
  insert_top entry_gt lin x (y ∷ h) s.0,
)

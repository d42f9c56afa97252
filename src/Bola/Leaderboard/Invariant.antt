-- ===== src/Bola/Leaderboard/Invariant.antt =====
-- The order, the length and the users of the vector after an update.
use mangle_apis.Base.{
  ℕ, suc, ◌≤◌, ◌<◌, ◌≡◌, refl, ap, inl, inr, false, some, List, [], ◌∷◌, ◌++◌, arith, leb,
  Bool-cases, Option-cases, length, All, length-append,
}
use mangle_apis.Base.Text.{Text, text_eq, text_eq_iff}
use mangle_apis.Base.Sort.{insert, sort, IsSorted, sort-IsSorted, length-sort}
use mangle_apis.Bola.Leaderboard.{
  LeaderboardEntry, entry_gt, Scan, stale, replaced, absent, scan, set_last, place, settle,
  update_entries,
}
use mangle_apis.Bola.Leaderboard.Ideal.Steps.{keep_inv, absent_inv}
use mangle_apis.Bola.Leaderboard.Order.{entry_gt-IsLinear}

-- No entry of the list is of the user.
abbrev pub Lacks : Text → List LeaderboardEntry → Type 0
Lacks u = All (λ (x : LeaderboardEntry). text_eq x.username u ≡ false)

-- No user has two entries.
abbrev pub IsUnique : List LeaderboardEntry → Type 0
IsUnique [] = Unit
IsUnique (x ∷ l) = Lacks x.username l × IsUnique l

text_eq_sym : (s t : Text) → text_eq s t ≡ false → text_eq t s ≡ false
text_eq_sym s t h = ground (arith, text_eq_iff s t, text_eq_iff t s)

Lacks-insert :
    (u : Text) (x : LeaderboardEntry) (l : List LeaderboardEntry)
    → text_eq x.username u ≡ false
    → Lacks u l
    → Lacks u (insert entry_gt x l)
unfolding insert
Lacks-insert u x [] p h = (p, tt)
Lacks-insert u x (y ∷ l) p h = elim (Bool-cases (entry_gt y x)) [
  | inl up ↦ rw up (h.0, Lacks-insert u x l p h.1)
  | inr low ↦ rw low (p, h)
]

insert-IsUnique :
    (x : LeaderboardEntry) (l : List LeaderboardEntry)
    → Lacks x.username l
    → IsUnique l
    → IsUnique (insert entry_gt x l)
unfolding insert
insert-IsUnique x [] h u = (tt, tt)
insert-IsUnique x (y ∷ l) h u = elim (Bool-cases (entry_gt y x)) [
  | inl up ↦ rw up (
    Lacks-insert y.username x l (text_eq_sym y.username x.username h.0) u.0,
    insert-IsUnique x l h.1 u.1,
  )
  | inr low ↦ rw low (h, u)
]

Lacks-sort : (u : Text) (l : List LeaderboardEntry) → Lacks u l → Lacks u (sort entry_gt l)
unfolding sort
Lacks-sort u [] h = tt
Lacks-sort u (x ∷ l) h = Lacks-insert u x (sort entry_gt l) h.0 (Lacks-sort u l h.1)

sort-IsUnique : (l : List LeaderboardEntry) → IsUnique l → IsUnique (sort entry_gt l)
unfolding sort
sort-IsUnique [] u = tt
sort-IsUnique (x ∷ l) u =
    insert-IsUnique x (sort entry_gt l) (Lacks-sort x.username l u.0) (sort-IsUnique l u.1)

-- What the loop leaves: the users are those that were there.
record IsKept (l l' : List LeaderboardEntry) : Type 0 where
  same_length : length l' ≡ length l
  lacks : (u : Text) → Lacks u l → Lacks u l'
  unique : IsUnique l → IsUnique l'

scan-IsKept :
    (e : LeaderboardEntry) (l l' : List LeaderboardEntry) → scan e l ≡ replaced l' → IsKept l l'
unfolding scan
scan-IsKept e [] l' p = cc
scan-IsKept e (x ∷ l) l' p = elim (Bool-cases (text_eq x.username e.username)) [
  | inl same ↦
      let name : x.username ≡ e.username = (text_eq_iff x.username e.username).0 same in
      let shape : l' ≡ e ∷ l = ground arith in
      rw shape
        (record { same_length = refl; lacks = λ u h. rw (← name) h; unique = λ u. rw (← name) u })
  | inr other ↦
      let (r, found, shape) = keep_inv x (scan e l) (rw other at p) in
      let kept = scan-IsKept e l r found in
      rw shape (record {
        same_length = ap suc kept.same_length;
        lacks = λ u h. (h.0, kept.lacks u h.1);
        unique = λ u. (kept.lacks x.username u.0, kept.unique u.1);
      })
]

scan-absent :
    (e : LeaderboardEntry) (l : List LeaderboardEntry) → scan e l ≡ absent → Lacks e.username l
scan-absent e [] p = tt
scan-absent e (x ∷ l) p = let (other, rest) = absent_inv e x l p in (other, scan-absent e l rest)

module _ (e : LeaderboardEntry) where
  Lacks-append :
      (u : Text) (l : List LeaderboardEntry)
      → Lacks u l
      → text_eq e.username u ≡ false
      → Lacks u (l ++ e ∷ [])
  Lacks-append u [] h p = (p, tt)
  Lacks-append u (x ∷ l) h p = (h.0, Lacks-append u l h.1 p)

  append-IsUnique :
      (l : List LeaderboardEntry) → IsUnique l → Lacks e.username l → IsUnique (l ++ e ∷ [])
  append-IsUnique [] u h = (tt, tt)
  append-IsUnique (x ∷ l) u h = (
    Lacks-append x.username l u.0 (text_eq_sym x.username e.username h.0),
    append-IsUnique l u.1 h.1,
  )

  Lacks-set_last :
      (u : Text) (l : List LeaderboardEntry)
      → Lacks u l
      → text_eq e.username u ≡ false
      → Lacks u (set_last l e)
  unfolding set_last
  Lacks-set_last u [] h p = tt
  Lacks-set_last u (x ∷ []) h p = (p, tt)
  Lacks-set_last u (x ∷ y ∷ l) h p = (h.0, Lacks-set_last u (y ∷ l) h.1 p)

  set_last-IsUnique :
      (l : List LeaderboardEntry) → IsUnique l → Lacks e.username l → IsUnique (set_last l e)
  unfolding set_last
  set_last-IsUnique [] u h = tt
  set_last-IsUnique (x ∷ []) u h = (tt, tt)
  set_last-IsUnique (x ∷ y ∷ l) u h = (
    Lacks-set_last x.username (y ∷ l) u.0 (text_eq_sym x.username e.username h.0),
    set_last-IsUnique (y ∷ l) u.1 h.1,
  )

  length-set_last : (l : List LeaderboardEntry) → length (set_last l e) ≡ length l
  unfolding set_last
  length-set_last [] = refl
  length-set_last (x ∷ []) = refl
  length-set_last (x ∷ y ∷ l) = ap suc (length-set_last (y ∷ l))

abbrev IsFit : ℕ → List LeaderboardEntry → Type 0
IsFit span l = IsUnique l × (length l ≤ span)

place-IsFit :
    (span : ℕ) (e : LeaderboardEntry) (l l' : List LeaderboardEntry)
    → IsFit span l
    → Lacks e.username l
    → place span e l ≡ some l'
    → IsFit span l'
unfolding place
place-IsFit span e l l' (u, fits) h p = elim (Bool-cases (leb span (length l))) [
  | inl full ↦
      let shape : l' ≡ set_last l e = ground arith in
      rw shape (set_last-IsUnique e l u h, rw (length-set_last e l) fits)
  | inr room ↦
      let shape : l' ≡ l ++ e ∷ [] = ground arith in
      rw shape (append-IsUnique e l u h, ground (arith, length-append l (e ∷ [])))
]

settle-IsFit :
    (span : ℕ) (e : LeaderboardEntry) (l l' : List LeaderboardEntry) (r : Scan)
    → scan e l ≡ r
    → IsFit span l
    → settle span e l r ≡ some l'
    → IsFit span l'
settle-IsFit span e l l' stale q f p = cc
settle-IsFit span e l l' (replaced m) q (u, fits) p =
    let kept = scan-IsKept e l m q in
    let shape : l' ≡ m = cc in rw shape (kept.unique u, rw (kept.same_length) fits)
settle-IsFit span e l l' absent q f p = place-IsFit span e l l' f (scan-absent e l q) p

sort-IsValid :
    (span : ℕ) (l : List LeaderboardEntry)
    → IsFit span l
    → IsSorted entry_gt (sort entry_gt l)
      × IsUnique (sort entry_gt l)
      × (length (sort entry_gt l) ≤ span)
sort-IsValid span l (u, fits) = (
  sort-IsSorted entry_gt entry_gt-IsLinear l,
  sort-IsUnique l u,
  rw (length-sort entry_gt l) fits,
)

-- Where an update of a board of a span above zero is accepted, and the board is within the span and
-- has no user twice, then so is the new board, which moreover is sorted from the highest entry down.
pub update_entries-IsValid :
    (span : ℕ) (e : LeaderboardEntry) (l : List LeaderboardEntry) {l' : List LeaderboardEntry}
    → 0 < span
    → IsUnique l
    → length l ≤ span
    → update_entries span e l ≡ some l'
    → IsSorted entry_gt l' × IsUnique l' × (length l' ≤ span)
unfolding update_entries
update_entries-IsValid span e [] {l'} pos u fits p =
    let shape : l' ≡ sort entry_gt (e ∷ []) = cc in
    rw shape (sort-IsValid span (e ∷ []) ((tt, tt), pos))
update_entries-IsValid span e (x ∷ l) {l'} pos u fits p =
    elim (Option-cases (settle span e (x ∷ l) (scan e (x ∷ l)))) [
      | inl refused ↦ absurd (ground arith)
      | inr (m, settled) ↦
          let shape : l' ≡ sort entry_gt m = ground arith in
          rw shape (
            sort-IsValid span m
              (settle-IsFit span e (x ∷ l) m (scan e (x ∷ l)) refl (u, fits) settled))
    ]

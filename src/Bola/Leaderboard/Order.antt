-- ===== src/Bola/Leaderboard/Order.antt =====
-- The order of entries.
use mangle_apis.Base.{◌≡◌, refl, true, false, [], ◌∷◌, arith, Ordering}
use mangle_apis.Base.Text.{Text, cmp}
use mangle_apis.Base.Sort.{IsLinear}
use mangle_apis.Bola.Leaderboard.{LeaderboardEntry, entry_cmp, entry_gt, entry_ge}

pub cmp_refl : (s : Text) → cmp s s ≡ Ordering.eq
unfolding cmp
cmp_refl [] = refl
cmp_refl (x ∷ s) = ground (arith, cmp_refl s)

cmp_eq : (s t : Text) → cmp s t ≡ Ordering.eq → s ≡ t
unfolding cmp
cmp_eq [] [] h = refl
cmp_eq (x ∷ s) (y ∷ t) h = ground (arith, cmp_eq s t)
cmp_eq _ _ h = ground arith

cmp_flip : (s t : Text) → cmp s t ≡ Ordering.gt → cmp t s ≡ Ordering.lt
unfolding cmp
cmp_flip (x ∷ s) (y ∷ t) h = ground (arith, cmp_flip s t)
cmp_flip (x ∷ s) [] h = refl
cmp_flip _ _ h = ground arith

cmp_flip_lt : (s t : Text) → cmp s t ≡ Ordering.lt → cmp t s ≡ Ordering.gt
unfolding cmp
cmp_flip_lt (x ∷ s) (y ∷ t) h = ground (arith, cmp_flip_lt s t)
cmp_flip_lt [] (y ∷ t) h = refl
cmp_flip_lt _ _ h = ground arith

cmp_trans : (s t u : Text) → cmp s t ≡ Ordering.gt → cmp t u ≡ Ordering.gt → cmp s u ≡ Ordering.gt
unfolding cmp
cmp_trans (x ∷ s) (y ∷ t) (z ∷ u) h k = ground (arith, cmp_trans s t u)
cmp_trans (x ∷ s) (y ∷ t) [] h k = refl
cmp_trans _ _ _ h k = ground arith

pub entry_gt-IsLinear : IsLinear entry_gt
unfolding entry_gt entry_cmp
entry_gt-IsLinear = record {
  asym = λ x y h. ground (arith, cmp_flip x.username y.username);
  trans = λ x y z h k. ground (arith, cmp_trans x.username y.username z.username);
  connex =
      λ x y h k. ground (arith, cmp_eq x.username y.username, cmp_flip_lt x.username y.username);
}

-- `a >= b` is the negation of `b > a`.
pub entry_ge_iff : (a b : LeaderboardEntry) → entry_ge a b ≡ true → entry_gt b a ≡ false
unfolding entry_ge entry_gt entry_cmp
entry_ge_iff a b h = ground (arith, cmp_flip b.username a.username)

pub entry_gt_of_not_ge : (a b : LeaderboardEntry) → entry_ge a b ≡ false → entry_gt b a ≡ true
unfolding entry_ge entry_gt entry_cmp
entry_gt_of_not_ge a b h = ground (arith, cmp_flip_lt a.username b.username)

-- ===== src/Base/Sort.antt =====
-- `slice::sort_by` of the standard library as a stable insertion sort, for the order that puts
-- greater items first, and what it does to the first items of a list.
use mangle_apis.Base.Tests.{if◌then◌else◌, Bool-cases}
use mangle_apis.Base.Lists.{length, take, All}
use Prim.Native.Nat.{ℕ, zero, suc}
use mathlib.Core.Path.{◌≡◌, refl, ap, ◌∙◌}
use mathlib.Core.Logic.{inl, inr}
use mathlib.Core.Bool.{Bool, true, false}
use mathlib.Core.List.{List, [], ◌∷◌, ◌++◌}
use native.Mathlib.Omega.{arith}

module _ {A : Type 0} (gt : A → A → Bool) where
  unfoldable pub insert : A → List A → List A
  insert x [] = x ∷ []
  insert x (y ∷ l) = if gt y x then y ∷ insert x l else x ∷ y ∷ l

  unfoldable pub sort : List A → List A
  sort [] = []
  sort (x ∷ l) = insert x (sort l)

  -- No item of the list is greater.
  abbrev pub AtMost : A → List A → Type 0
  AtMost x = All (λ y. gt y x ≡ false)

  -- From the greatest item down.
  abbrev pub IsSorted : List A → Type 0
  IsSorted [] = Unit
  IsSorted (x ∷ l) = AtMost x l × IsSorted l

-- A strict linear order, as a Boolean test.
pub record IsLinear {A : Type 0} (gt : A → A → Bool) : Type 0 where
  pub asym : (x y : A) → gt x y ≡ true → gt y x ≡ false
  pub trans : (x y z : A) → gt x y ≡ true → gt y z ≡ true → gt x z ≡ true
  pub connex : (x y : A) → gt x y ≡ false → gt y x ≡ false → x ≡ y

module _ {A : Type 0} (gt : A → A → Bool) (linear : IsLinear gt) where
  -- `z` is at most `y`, and `y` at most `x`.
  pub le_trans : (x y z : A) → gt y x ≡ false → gt z y ≡ false → gt z x ≡ false
  le_trans x y z p q = elim (Bool-cases (gt z x)) [
    | inr low ↦ low
    | inl up ↦ elim (Bool-cases (gt x y)) [
      | inl down ↦ cc (linear.trans z x y up down)
      | inr same ↦ cc (linear.connex x y same p)
    ]
  ]

  -- `y` is greater than `x`, which is at least `z`.
  pub gt-of_gt_le : (x y z : A) → gt y x ≡ true → gt z x ≡ false → gt y z ≡ true
  gt-of_gt_le x y z p q = elim (Bool-cases (gt x z)) [
    | inl down ↦ linear.trans y x z p down
    | inr same ↦ cc (linear.connex x z same q)
  ]

  pub gt-of_le_gt : (x y z : A) → gt x y ≡ false → gt x z ≡ true → gt y z ≡ true
  gt-of_le_gt x y z p q = elim (Bool-cases (gt y x)) [
    | inl up ↦ linear.trans y x z up q
    | inr same ↦ cc (linear.connex x y p same)
  ]

  pub insert_comm :
      (a b : A) (l : List A) → insert gt a (insert gt b l) ≡ insert gt b (insert gt a l)
  unfolding insert
  insert_comm a b [] = ground (arith, linear.asym a b, linear.connex a b)
  insert_comm a b (y ∷ l) = ground (
    arith,
    linear.asym a b,
    linear.connex a b,
    insert_comm a b l,
    gt-of_le_gt y a b,
    gt-of_le_gt y b a,
  )

  pub AtMost-insert :
      (x a : A) (l : List A) → AtMost gt x l → gt a x ≡ false → AtMost gt x (insert gt a l)
  unfolding insert
  AtMost-insert x a [] h p = (p, tt)
  AtMost-insert x a (y ∷ l) h p = elim (Bool-cases (gt y a)) [
    | inl up ↦ rw up (h.0, AtMost-insert x a l h.1 p)
    | inr low ↦ rw low (p, h)
  ]

  pub AtMost-weaken : (x y : A) (l : List A) → gt y x ≡ false → AtMost gt y l → AtMost gt x l
  AtMost-weaken x y [] p h = tt
  AtMost-weaken x y (z ∷ l) p h = (le_trans x y z p h.0, AtMost-weaken x y l p h.1)

  pub insert-IsSorted : (a : A) (l : List A) → IsSorted gt l → IsSorted gt (insert gt a l)
  unfolding insert
  insert-IsSorted a [] s = (tt, tt)
  insert-IsSorted a (y ∷ l) s = elim (Bool-cases (gt y a)) [
    | inl up ↦ rw up (AtMost-insert y a l s.0 (linear.asym y a up), insert-IsSorted a l s.1)
    | inr low ↦ rw low ((low, AtMost-weaken a y l low s.0), s)
  ]

  pub sort-IsSorted : (l : List A) → IsSorted gt (sort gt l)
  unfolding sort
  sort-IsSorted [] = tt
  sort-IsSorted (x ∷ l) = insert-IsSorted x (sort gt l) (sort-IsSorted l)

  pub insert_top : (x : A) (l : List A) → AtMost gt x l → insert gt x l ≡ x ∷ l
  unfolding insert
  insert_top x [] h = refl
  insert_top x (y ∷ l) h = rw (h.0)

  pub sort_of_IsSorted : (l : List A) → IsSorted gt l → sort gt l ≡ l
  unfolding sort
  sort_of_IsSorted [] s = refl
  sort_of_IsSorted (x ∷ l) s = rw (sort_of_IsSorted l s.1) (insert_top x l s.0)

  pub sort-append : (l : List A) (e : A) → sort gt (l ++ e ∷ []) ≡ insert gt e (sort gt l)
  unfolding sort insert
  sort-append [] e = refl
  sort-append (x ∷ l) e = rw (sort-append l e) (insert_comm x e (sort gt l))

module _ {A : Type 0} (gt : A → A → Bool) where
  pub length-insert : (a : A) (l : List A) → length (insert gt a l) ≡ suc (length l)
  unfolding insert
  length-insert a [] = refl
  length-insert a (y ∷ l) = ground (arith, length-insert a l)

  pub length-sort : (l : List A) → length (sort gt l) ≡ length l
  unfolding sort
  length-sort [] = refl
  length-sort (x ∷ l) = length-insert x (sort gt l) ∙ ap suc (length-sort l)

  pub AtMost-take : (x : A) (n : ℕ) (l : List A) → AtMost gt x l → AtMost gt x (take n l)
  AtMost-take x zero l h = tt
  AtMost-take x (suc n) [] h = tt
  AtMost-take x (suc n) (y ∷ l) h = (h.0, AtMost-take x n l h.1)

  pub take-IsSorted : (n : ℕ) (l : List A) → IsSorted gt l → IsSorted gt (take n l)
  take-IsSorted zero l s = tt
  take-IsSorted (suc n) [] s = tt
  take-IsSorted (suc n) (x ∷ l) s = (AtMost-take x n l s.0, take-IsSorted n l s.1)

  take-take : (n : ℕ) (l : List A) (y : A) → take n (y ∷ take n l) ≡ take n (y ∷ l)
  take-take zero l y = refl
  take-take (suc n) [] y = refl
  take-take (suc n) (x ∷ l) y = ap (◌∷◌ y) (take-take n l x)

  -- To insert and keep `n` items, the first `n` are all that matter.
  pub take-insert-take :
      (n : ℕ) (x : A) (l : List A) → take n (insert gt x (take n l)) ≡ take n (insert gt x l)
  unfolding insert
  take-insert-take zero x l = refl
  take-insert-take (suc n) x [] = refl
  take-insert-take (suc n) x (y ∷ l) = ground (arith, take-insert-take n x l, take-take n l y)

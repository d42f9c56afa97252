-- ===== src/Core/Token/BiMap.antt =====
-- `bimap::BiMap`: a table of pairs in which neither a left nor a right value stands twice. A right
-- value is compared by its identifier (`PartialEq for TokenEntry`).
use mangle_apis.Base.{◌≡◌, ◌↔◌, refl, Bool, true, Option, none, some, if◌then◌else◌}

-- The entry that a lookup gives after an insertion of `v`: it is gone if it has its identifier.
abbrev pub unless : {V : Type 0} → (V → Bool) → Option V → Option V
unless same none = none
unless same (some w) = if same w then none else some w

-- The documented behaviour: `insert` overwrites the pairs with the new left or the new right value.
pub record BiMapApi (L I V : Type 0) (identifier : V → I) : Type 1 where
  pub Map : Type 0
  pub left_eq : L → L → Bool
  pub left_eq_iff : (a b : L) → (left_eq a b ≡ true) ↔ (a ≡ b)
  pub right_eq : I → I → Bool
  pub right_eq_iff : (a b : I) → (right_eq a b ≡ true) ↔ (a ≡ b)
  pub empty : Map
  pub get : Map → L → Option V
  pub insert : Map → L → V → Map
  pub remove : Map → L → Map
  pub get-empty : (l : L) → get empty l ≡ none
  pub get-insert :
      (m : Map) (l : L) (v : V) (j : L)
      → get (insert m l v) j ≡ (
          if left_eq l j
          then some v
          else unless (λ w. right_eq (identifier w) (identifier v)) (get m j))
  pub get-remove :
      (m : Map) (l j : L) → get (remove m l) j ≡ (if left_eq l j then none else get m j)

-- The table as a function from left values meets the laws.
unfoldable pub function_bimap :
    {L I V : Type 0} (identifier : V → I) (left_eq : L → L → Bool) (right_eq : I → I → Bool)
    → ((a b : L) → (left_eq a b ≡ true) ↔ (a ≡ b))
    → ((a b : I) → (right_eq a b ≡ true) ↔ (a ≡ b))
    → BiMapApi L I V identifier
function_bimap {L} {I} {V} identifier left_eq right_eq left_eq_iff right_eq_iff = record {
  Map = L → Option V;
  left_eq = left_eq;
  left_eq_iff = left_eq_iff;
  right_eq = right_eq;
  right_eq_iff = right_eq_iff;
  empty = λ j. none;
  get = λ m j. m j;
  insert = λ m l v j.
      if left_eq l j then some v else unless (λ w. right_eq (identifier w) (identifier v)) (m j);
  remove = λ m l j. if left_eq l j then none else m j;
  get-empty = λ j. refl;
  get-insert = λ m l v j. refl;
  get-remove = λ m l j. refl;
}

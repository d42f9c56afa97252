-- ===== src/Base/Map/Assoc.antt =====
-- Association lists, with at most one entry for a key, meet the laws of a map.
use mathlib.Core.Path.{◌≡◌, refl}
use mathlib.Core.Logic.{◌↔◌}
use mathlib.Core.Bool.{Bool, true}
use mathlib.Core.Option.{Option, none, some}
use mathlib.Core.List.{List, [], ◌∷◌}
use native.Mathlib.Omega.{arith}
use mangle_apis.Base.Tests.{if◌then◌else◌}
use mangle_apis.Base.Text.{Text, text_eq, text_eq_iff}
use mangle_apis.Base.Map.Defs.{MapApi}

module _ {K V : Type 0} (key_eq : K → K → Bool) where
  pub lookup : List (K × V) → K → Option V
  lookup [] k = none
  lookup ((j, v) ∷ l) k = if key_eq j k then some v else lookup l k

  pub without : List (K × V) → K → List (K × V)
  without [] k = []
  without ((j, v) ∷ l) k = let rest = without l k in if key_eq j k then rest else (j, v) ∷ rest

  module _ (eq_iff : (a b : K) → (key_eq a b ≡ true) ↔ (a ≡ b)) where
    pub lookup-without :
        (l : List (K × V)) (k j : K)
        → lookup (without l k) j ≡ (if key_eq k j then none else lookup l j)
    unfolding lookup without
    lookup-without [] k j = ground arith
    lookup-without ((i, v) ∷ l) k j =
        ground (arith, lookup-without l k j, eq_iff i k, eq_iff i j, eq_iff k j)

    pub lookup-with :
        (l : List (K × V)) (k : K) (v : V) (j : K)
        → lookup ((k, v) ∷ without l k) j ≡ (if key_eq k j then some v else lookup l j)
    unfolding lookup
    lookup-with l k v j = ground (arith, lookup-without l k j)

    unfoldable pub assoc_map : MapApi K V
    unfolding lookup without
    assoc_map = record {
      Map = List (K × V);
      key_eq = key_eq;
      empty = [];
      get = lookup;
      insert = λ m k v. (k, v) ∷ without m k;
      remove = without;
      key_eq_iff = eq_iff;
      get-empty = λ k. refl;
      get-insert = lookup-with;
      get-remove = lookup-without;
    }

-- Maps whose keys are strings.
unfoldable pub text_map : (V : Type 0) → MapApi Text V
unfolding assoc_map text_eq
text_map V = assoc_map text_eq text_eq_iff

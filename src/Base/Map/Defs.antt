-- ===== src/Base/Map/Defs.antt =====
-- The operations of a map, and what its documentation promises of them.
use mathlib.Core.Path.{◌≡◌}
use mathlib.Core.Logic.{◌↔◌}
use mathlib.Core.Bool.{Bool, true}
use mathlib.Core.Option.{Option, none, some}
use mangle_apis.Base.Tests.{if◌then◌else◌}

pub record MapApi (K V : Type 0) : Type 1 where
  pub Map : Type 0
  pub key_eq : K → K → Bool
  pub empty : Map
  pub get : Map → K → Option V
  pub insert : Map → K → V → Map
  pub remove : Map → K → Map
  pub key_eq_iff : (a b : K) → (key_eq a b ≡ true) ↔ (a ≡ b)
  pub get-empty : (k : K) → get empty k ≡ none
  pub get-insert :
      (m : Map) (k : K) (v : V) (j : K)
      → get (insert m k v) j ≡ (if key_eq k j then some v else get m j)
  pub get-remove : (m : Map) (k j : K) → get (remove m k) j ≡ (if key_eq k j then none else get m j)

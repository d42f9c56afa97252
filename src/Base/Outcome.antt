-- ===== src/Base/Outcome.antt =====
-- What a call of a Rust function of type `Result<A, E>` can do: return `Ok`, return `Err`, or panic
-- (`unwrap`, `expect`, `unreachable!`, `todo!`, an assertion of a library). `?` is `◌>>=◌`.
use mathlib.Core.Path.{◌≡◌, refl}
use mathlib.Core.Logic.{◌⊎◌, inl, inr}

pub data Outcome {ℓ κ} (E : Type ℓ) (A : Type κ) : Type (ℓ ⊔ κ) where
  ok : A → Outcome E A
  err : E → Outcome E A
  panic : Outcome E A

pub Outcome-cases {ℓ κ} :
    {E : Type ℓ} {A : Type κ} (o : Outcome E A)
    → ((a : A) × (o ≡ ok a)) ⊎ ((e : E) × (o ≡ err e)) ⊎ (o ≡ panic)
Outcome-cases (ok a) = inl (a, refl)
Outcome-cases (err e) = inr (inl (e, refl))
Outcome-cases panic = inr (inr refl)

infixl 5 ◌>>=◌
abbrev pub ◌>>=◌ {ℓ κ μ} :
    {E : Type ℓ} {A : Type κ} {B : Type μ} → Outcome E A → (A → Outcome E B) → Outcome E B
panic >>= then = panic
err why >>= then = err why
ok value >>= then = then value

-- A chain that succeeds has a first call that succeeds, and the rest succeeds on its value.
pub >>=-eq-ok {ℓ κ μ} :
    {E : Type ℓ} {A : Type κ} {B : Type μ} (first : Outcome E A) (then : A → Outcome E B) {last : B}
    → first >>= then ≡ ok last
    → (value : A) × (first ≡ ok value) × (then value ≡ ok last)
>>=-eq-ok panic then done = cc
>>=-eq-ok (err why) then done = cc
>>=-eq-ok (ok value) then done = (value, refl, done)

-- `Result::map_err`.
abbrev pub map_err {ℓ κ μ} :
    {E : Type ℓ} {F : Type κ} {A : Type μ} → (E → F) → Outcome E A → Outcome F A
map_err f (ok a) = ok a
map_err f (err e) = err (f e)
map_err f panic = panic

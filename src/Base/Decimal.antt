-- ===== src/Base/Decimal.antt =====
-- Decimal numbers as Rust prints and reads them: `to_string` and `parse::<u16>`.
use mathlib.Core.Path.{◌≡◌, refl, ap, ◌∙◌}
use mathlib.Core.Bool.{false, ◌&&◌}
use mathlib.Core.Option.{Option, none, some}
use mathlib.Core.List.{[], ◌∷◌, ◌++◌}
use mathlib.Core.Logic.{inl, inr}
use Prim.Native.Nat.{ℕ, zero, suc, ◌+◌, ◌-◌, ◌*◌, ◌/◌, ◌%◌, ◌≤◌, ◌<◌}
use native.Mathlib.Omega.{arith}
use mangle_apis.Base.Tests.{ltb, leb, ◌==◌, if◌then◌else◌, Bool-cases, ltb→lt}
use mangle_apis.Base.Text.{Text}

-- The digits of a number; each needs a unit of fuel, and there are at most as many as the number and one.
unfoldable pub digits : ℕ → ℕ → Text
digits zero n = []
digits (suc fuel) n =
    let front = digits fuel (n / 10) in
    if ltb n 10 then (48 + n) ∷ [] else front ++ (48 + n % 10) ∷ []

unfoldable pub to_string : ℕ → Text
to_string n = digits (suc n) n

-- One digit more, refused if it is none or if the number would leave `u16`.
unfoldable pub push_digit : ℕ → ℕ → Option ℕ
push_digit n c =
    if leb 48 c && leb c 57
    then if leb (n * 10 + (c - 48)) 65535 then some (n * 10 + (c - 48)) else none
    else none

unfoldable pub push_digits : Option ℕ → Text → Option ℕ
push_digits n [] = n
push_digits none (c ∷ s) = none
push_digits (some n) (c ∷ s) = push_digits (push_digit n c) s

unfoldable pub parse_digits : Text → Option ℕ
parse_digits [] = none
parse_digits (c ∷ s) = push_digits (some 0) (c ∷ s)

-- A leading `+` is taken.
unfoldable pub parse_u16 : Text → Option ℕ
parse_u16 [] = none
parse_u16 (c ∷ s) = if c == 43 then parse_digits s else parse_digits (c ∷ s)

push_digits-append :
    (n : Option ℕ) (s : Text) (c : ℕ)
    → push_digits n (s ++ c ∷ []) ≡ push_digits (push_digits n s) (c ∷ [])
unfolding push_digits
push_digits-append none [] c = refl
push_digits-append none (d ∷ s) c = refl
push_digits-append (some n) [] c = refl
push_digits-append (some n) (d ∷ s) c = push_digits-append (push_digit n d) s c

push_digit_lem : (n d : ℕ) → d < 10 → n * 10 + d ≤ 65535 → push_digit n (48 + d) ≡ some (n * 10 + d)
unfolding push_digit
push_digit_lem n d small fits = ground arith

plain : (n : ℕ) → 0 * 10 + n ≡ n
plain n = omega arith

push_digits-digits :
    (fuel n : ℕ) → n < fuel → n ≤ 65535 → push_digits (some 0) (digits fuel n) ≡ some n
unfolding digits push_digits
push_digits-digits zero n enough fits = absurd (nothing enough)
  where
    nothing : n < 0 → ⊥
    nothing h = omega arith
push_digits-digits (suc fuel) n enough fits = elim (Bool-cases (ltb n 10)) [
  | inl small ↦ rw small (push_digit_lem 0 n (ltb→lt n 10 small) (omega arith) ∙ ap some (plain n))
  | inr large ↦
      let ten : 10 ≤ n = ltb-le n 10 large in
      let whole : (n / 10) * 10 + n % 10 ≡ n = omega arith in
      let front : push_digits (some 0) (digits fuel (n / 10)) ≡ some (n / 10) =
        push_digits-digits fuel (n / 10) (omega arith) (omega arith) in
      let last : push_digit (n / 10) (48 + n % 10) ≡ some n =
        push_digit_lem (n / 10) (n % 10) (omega arith) (omega arith) ∙ ap some whole in
      rw large (
        push_digits-append (some 0) (digits fuel (n / 10)) (48 + n % 10)
        ∙ ap (λ (o : Option ℕ). push_digits o ((48 + n % 10) ∷ [])) front
        ∙ last)
]
  where
    ltb-le : (a b : ℕ) → ltb a b ≡ false → b ≤ a
    ltb-le a b h = ground arith

-- The text of a number starts with a digit.
digits_head : (fuel n : ℕ) → n < fuel → (c : ℕ) × (s : Text) × (digits fuel n ≡ c ∷ s) × (48 ≤ c)
unfolding digits
digits_head zero n enough = absurd (nothing enough)
  where
    nothing : n < 0 → ⊥
    nothing h = omega arith
digits_head (suc fuel) n enough = elim (Bool-cases (ltb n 10)) [
  | inl small ↦ (48 + n, [], rw small refl, omega arith)
  | inr large ↦
      let ten : 10 ≤ n = ltb-le n 10 large in
      let (c, s, e, digit) = digits_head fuel (n / 10) (omega arith) in
      (c, s ++ (48 + n % 10) ∷ [], rw (large, e) refl, digit)
]
  where
    ltb-le : (a b : ℕ) → ltb a b ≡ false → b ≤ a
    ltb-le a b h = ground arith

-- A number that fits in 16 bits is read back as it was printed.
pub parse_u16-to_string : (n : ℕ) → n ≤ 65535 → parse_u16 (to_string n) ≡ some n
unfolding to_string parse_u16 parse_digits
parse_u16-to_string n fits =
    let (c, s, e, digit) = digits_head (suc n) n (omega arith) in
    let no_plus : (c == 43) ≡ false = ground arith in
    rw (e, no_plus) (rw⁻¹ e (push_digits-digits (suc n) n (omega arith) fits))

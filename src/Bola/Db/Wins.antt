-- ===== src/Bola/Db/Wins.antt =====
-- The tournaments that db.rs stores for a player who wins another.
use mathlib.Core.List.{Memᴰ}
use mathlib.Core.List.Memᴰ
use mathlib.Core.List.Memᴰ.{head, tail}
use mangle_apis.Base.{
  ℕ, ◌≡◌, ◌↔◌, ◌⊎◌, refl, sym, ◌∙◌, Bool, true, false, none, some, List, [], ◌∷◌, ◌++◌, Bool-cases,
  if◌then◌else◌, inl, inr,
}
use mangle_apis.Base.Text.{Text, bytes, text_eq, text_eq_iff}
use mangle_apis.Base.Map.{MapApi}
use mangle_apis.Base.Outcome.{Outcome, ok, err}
use mangle_apis.Base.Decimal.{to_string}
use mangle_apis.Bola.Db.{
  AttributeValue, ns, DbError, service, GetAnswer, answered, update_wins, as_ns, deser, contains,
  add_win, stored_wins, win_tournament,
}

contains-Memᴰ : (week : Text) (wins : List Text) → contains week wins ≡ true → Memᴰ week wins
unfolding contains
contains-Memᴰ week [] e = absurd (cc)
contains-Memᴰ week (win ∷ wins) e = elim (Bool-cases (text_eq win week)) [
  | inl same ↦ head (sym ((text_eq_iff win week).0 same))
  | inr other ↦ tail (contains-Memᴰ week wins (rest other e))
]
  where
    rest : text_eq win week ≡ false → contains week (win ∷ wins) ≡ true → contains week wins ≡ true
    rest other e = sym (unfold contains in rw other refl) ∙ e

Memᴰ-contains : (week : Text) (wins : List Text) → Memᴰ week wins → contains week wins ≡ true
unfolding contains
Memᴰ-contains week [] m = absurd (Memᴰ.not-nil m)
Memᴰ-contains week (win ∷ wins) (head e) = rw ((text_eq_iff win week).1 (sym e)) refl
Memᴰ-contains week (win ∷ wins) (tail m) = elim (Bool-cases (text_eq win week)) [
  | inl same ↦ rw same refl
  | inr other ↦ rw other (Memᴰ-contains week wins m)
]

-- A number set has nothing twice.
abbrev pub IsNumberSet : List Text → Type 0
IsNumberSet [] = Unit
IsNumberSet (win ∷ wins) = ¬ (Memᴰ win wins) × IsNumberSet wins

append-IsNumberSet :
    (wins : List Text) (week : Text)
    → IsNumberSet wins
    → ¬ (Memᴰ week wins)
    → IsNumberSet (wins ++ week ∷ [])
append-IsNumberSet [] week h new = (λ m. Memᴰ.not-nil m, tt)
append-IsNumberSet (win ∷ wins) week (apart, h) new = (
  λ m. elim (Memᴰ.append_cases wins m) [
    | inl before ↦ apart before
    | inr last ↦ new (head (sym (Memᴰ.eq_of_singleton last)))
  ],
  append-IsNumberSet wins week h (λ m. new (tail m)),
)

-- `week` put into a number set, described by what is in it.
abbrev pub Added : Text → List Text → List Text → Type 0
Added week wins now =
    IsNumberSet now × ((text : Text) → Memᴰ text now ↔ (Memᴰ text wins ⊎ (text ≡ week)))

add_win-Added :
    (week : Text) (wins : List Text) → IsNumberSet wins → Added week wins (add_win week wins)
unfolding add_win
add_win-Added week wins h = elim (Bool-cases (contains week wins)) [
  | inl there ↦ rw there (
    h,
    λ text. (
      λ m. inl m,
      λ p. elim p [ inl m ↦ m | inr e ↦ Memᴰ.cast e (contains-Memᴰ week wins there) ],
    ),
  )
  | inr new ↦ rw new (
    append-IsNumberSet wins week h (λ m. absurd (cc (new, Memᴰ-contains week wins m))),
    λ text. (
      λ m. elim (Memᴰ.append_cases wins m) [
        | inl before ↦ inl before
        | inr last ↦ inr (Memᴰ.eq_of_singleton last)
      ],
      λ p. elim p [
        | inl m ↦ Memᴰ.append_left (week ∷ []) m
        | inr e ↦ Memᴰ.append_right wins (head e)
      ],
    ),
  )
]

module _ (M : MapApi Text AttributeValue) where
  -- The wins in an answer of the table: none without an item or without the attribute.
  pub data Holds : GetAnswer M.Map → List Text → Type 0 where
    no_item : Holds (answered none) []
    no_wins :
        (item : M.Map)
        → M.get item (bytes "tournament_wins") ≡ none
        → Holds (answered (some item)) []
    has_wins :
        (item : M.Map) (wins : List Text)
        → M.get item (bytes "tournament_wins") ≡ some (ns wins)
        → Holds (answered (some item)) wins

  stored_wins-Holds :
      (answer : GetAnswer M.Map) (wins : List Text)
      → Holds answer wins
      → stored_wins M answer ≡ ok wins
  unfolding stored_wins deser as_ns
  stored_wins-Holds _ _ no_item = refl
  stored_wins-Holds _ _ (no_wins item e) = rw (e, stored_wins) refl
  stored_wins-Holds _ _ (has_wins item wins e) = rw (e, stored_wins) refl

  -- Winning a tournament, where the table answers, without an item, without wins, or with a number set of
  -- wins: one request is made, for this player's wins, and the wins it asks for are a number set again, of
  -- the answered wins, every one of them, and the week, and no others; the call succeeds if and only if
  -- the table takes the request.
  pub win_tournament_lem :
      (answer : GetAnswer M.Map) (accepted : Bool) (week : ℕ) (email : Text) (wins : List Text)
      → Holds answer wins
      → IsNumberSet wins
      → (now : List Text) × ((win_tournament M answer accepted week email).0
          ≡ update_wins email now ∷ [])
        × Added (to_string week) wins now
        × (((win_tournament M answer accepted week email).1 ≡ ok tt) ↔ (accepted ≡ true))
  unfolding win_tournament
  win_tournament_lem answer accepted week email wins holds h =
      let e = stored_wins-Holds answer wins holds in
      (
        add_win (to_string week) wins,
        rw (e, win_tournament) refl,
        add_win-Added (to_string week) wins h,
        rw (e, win_tournament) (taken accepted),
      )
    where
      taken :
          (flag : Bool)
          → let result : Outcome DbError (Unit {0}) = if flag then ok tt else err service in
            (result ≡ ok tt) ↔ (flag ≡ true)
      taken true = (λ e. refl, λ e. refl)
      taken false = (λ e. absurd (cc), λ e. absurd (cc))

-- ===== src/Bola/Db/Laws.antt =====
-- The items that db.rs writes, and their fields.
use mangle_apis.Base.{
  ℕ, ◌≤◌, ◌≡◌, refl, sym, ◌∙◌, true, false, none, some, Option, List, [], ◌∷◌, map, All, Bool-cases,
  inl, inr,
}
use mangle_apis.Base.Text.{Text, bytes, text_eq, text_eq_iff}
use mangle_apis.Base.Map.{MapApi}
use mangle_apis.Base.Outcome.{ok}
use mangle_apis.Base.Decimal
use mangle_apis.Base.Decimal.{to_string, parse_u16, parse_u16-to_string}
use mangle_apis.Bola.Db.{
  AttributeValue, s, n, ns, as_n, deser, parse_field, parse_wins, num, with_wins, new_item,
}

module _ {V : Type 0} (M : MapApi Text V) where
  pub get-own : (m : M.Map) (k : Text) (v : V) → M.get (M.insert m k v) k ≡ some v
  get-own m k v = M.get-insert m k v k ∙ rw ((M.key_eq_iff k k).1 refl) refl

  pub get-other :
      (m : M.Map) (k : Text) (v : V) (j : Text)
      → text_eq k j ≡ false
      → M.get (M.insert m k v) j ≡ M.get m j
  get-other m k v j differ = elim (Bool-cases (M.key_eq k j)) [
    | inl same ↦
        absurd (true_false (sym ((text_eq_iff k j).1 ((M.key_eq_iff k j).0 same)) ∙ differ))
    | inr other ↦ M.get-insert m k v j ∙ rw other refl
  ]
    where
      true_false : true ≡ false → ⊥
      true_false e = cc

pub parse_wins-map :
    (wins : List ℕ) → All (λ w. w ≤ 65535) wins → parse_wins (map to_string wins) ≡ ok wins
unfolding parse_wins
parse_wins-map [] h = refl
parse_wins-map (w ∷ wins) (small, h) =
    rw (parse_wins, parse_u16-to_string w small) (rw (parse_wins-map wins h) refl)

zero_field : (field : Text) → parse_field field (some (bytes "0")) ≡ ok 0
unfolding parse_field parse_u16 Decimal.parse_digits Decimal.push_digits Decimal.push_digit
zero_field field = refl

-- The attribute of the tournaments: an empty set is left out.
abbrev pub wins_attribute : List ℕ → Option AttributeValue
wins_attribute [] = none
wins_attribute (w ∷ wins) = some (ns (map to_string (w ∷ wins)))

module _ (M : MapApi Text AttributeValue) where
  pub data Fresh (username : Text) (wins : List ℕ) (item : M.Map) : Type 0 where
    fresh :
        M.get item (bytes "easy_highscore") ≡ some (n (bytes "0"))
        → M.get item (bytes "normal_highscore") ≡ some (n (bytes "0"))
        → M.get item (bytes "expert_highscore") ≡ some (n (bytes "0"))
        → M.get item (bytes "username") ≡ some (s username)
        → M.get item (bytes "tournament_wins") ≡ wins_attribute wins
        → Fresh username wins item

  get-with_wins :
      (wins : List ℕ) (item : M.Map) (field : Text)
      → text_eq (bytes "tournament_wins") field ≡ false
      → M.get (with_wins M wins item) field ≡ M.get item field
  unfolding with_wins
  get-with_wins [] item field differ = refl
  get-with_wins (w ∷ wins) item field differ = get-other M _ _ _ _ differ

  wins-with_wins :
      (wins : List ℕ) (item : M.Map)
      → M.get item (bytes "tournament_wins") ≡ none
      → M.get (with_wins M wins item) (bytes "tournament_wins") ≡ wins_attribute wins
  unfolding with_wins
  wins-with_wins [] item none_yet = none_yet
  wins-with_wins (w ∷ wins) item none_yet =
      get-own M item (bytes "tournament_wins") (ns (map to_string (w ∷ wins)))

  pub new_item-Fresh :
      (email username : Text) (wins : List ℕ) → Fresh username wins (new_item M email username wins)
  unfolding new_item text_eq
  new_item-Fresh email username wins =
      fresh
        (get-with_wins wins _ _ refl
          ∙ get-other M _ _ _ _ refl
          ∙ get-other M _ _ _ _ refl
          ∙ get-other M _ _ _ _ refl
          ∙ get-other M _ _ _ _ refl
          ∙ get-own M _ _ _)
        (get-with_wins wins _ _ refl
          ∙ get-other M _ _ _ _ refl
          ∙ get-other M _ _ _ _ refl
          ∙ get-other M _ _ _ _ refl
          ∙ get-own M _ _ _)
        (get-with_wins wins _ _ refl
          ∙ get-other M _ _ _ _ refl
          ∙ get-other M _ _ _ _ refl
          ∙ get-own M _ _ _)
        (get-with_wins wins _ _ refl ∙ get-other M _ _ _ _ refl ∙ get-own M _ _ _)
        (wins-with_wins wins _ (
          get-other M _ _ _ _ refl
          ∙ get-other M _ _ _ _ refl
          ∙ get-other M _ _ _ _ refl
          ∙ get-other M _ _ _ _ refl
          ∙ get-other M _ _ _ _ refl
          ∙ get-other M _ _ _ _ refl
          ∙ M.get-empty (bytes "tournament_wins")))

  pub num_zero :
      (field : Text) (item : M.Map)
      → M.get item field ≡ some (n (bytes "0"))
      → num M field item ≡ ok 0
  unfolding num deser as_n
  num_zero field item e = rw e (zero_field field)

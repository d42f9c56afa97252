-- ===== src/Bola/Db/Tests.antt =====
-- Items that are association lists, and a table that gives sets back in another order.
use mathlib.Core.List.{Permᴰ}
use mathlib.Core.List.Permᴰ.{swap}
use mathlib.Core.List.Memᴰ
use mangle_apis.Base.{
  ℕ, ◌≡◌, ◌↔◌, refl, sym, subst, Bool-cases, inl, inr, Option, true, none, some, List, [], ◌∷◌,
  arith,
}
use mangle_apis.Base.Text.{Text, bytes, text_eq, text_eq_iff}
use mangle_apis.Base.Map.{MapApi, assoc_map, text_map}
use mangle_apis.Base.Outcome.{ok}
use mangle_apis.Base.Decimal
use mangle_apis.Base.Decimal.{to_string}
use mangle_apis.Bola.Db.{
  AttributeValue, ns, GetAnswer, answered, put_item, update_wins, with_wins, new_item,
  get_user_profile_by_email, create_user_profile, win_tournament,
}
use mangle_apis.Bola.Db.Laws.{get-other}
use mangle_apis.Bola.Db.Sets.{
  Kept, absent, whole, unordered, KeptItem, new_profile, get-create_user_profile,
}
use mangle_apis.Bola.Db.Wins.{Holds, has_wins, IsNumberSet, Added, win_tournament_lem}

abbrev Item : MapApi Text AttributeValue
Item = text_map AttributeValue

abbrev put : Item.Map
put = new_item Item (bytes "a@x") (bytes "anna") (3 ∷ 65535 ∷ [])

-- The table has the two weeks the other way round.
abbrev stored : Item.Map
stored = Item.insert put (bytes "tournament_wins") (ns (to_string 65535 ∷ to_string 3 ∷ []))

wins_swapped :
    Kept (Item.get put (bytes "tournament_wins")) (Item.get stored (bytes "tournament_wins"))
unfolding new_item with_wins text_map assoc_map text_eq
wins_swapped = unordered _ _ (swap refl refl)

Kept-whole : (attribute : Option AttributeValue) → Kept attribute attribute
Kept-whole none = absent
Kept-whole (some value) = whole value

stored-KeptItem : KeptItem Item put stored
stored-KeptItem field = elim (Bool-cases (text_eq (bytes "tournament_wins") field)) [
  | inl same ↦
      subst (λ f. Kept (Item.get put f) (Item.get stored f))
        ((text_eq_iff (bytes "tournament_wins") field).0 same) wins_swapped
  | inr other ↦
      subst (Kept (Item.get put field)) (sym (get-other Item put _ _ field other)) (Kept-whole _)
]

get-create_user_profile_example :
    (create_user_profile Item true (bytes "a@x") (bytes "anna") (3 ∷ 65535 ∷ [])
      ≡ (put_item put ∷ [], ok tt))
    × (read : List ℕ) × (get_user_profile_by_email Item (answered (some stored))
        ≡ ok (some (new_profile Item (bytes "anna") read)))
    × Permᴰ (3 ∷ 65535 ∷ []) read
get-create_user_profile_example =
    get-create_user_profile Item (bytes "a@x") (bytes "anna") (3 ∷ 65535 ∷ []) stored (omega arith)
      stored-KeptItem

abbrev answer : GetAnswer Item.Map
answer = answered (some stored)

abbrev before : List Text
before = to_string 65535 ∷ to_string 3 ∷ []

two_numbers : ¬ (to_string 65535 ≡ to_string 3)
unfolding to_string Decimal.digits
two_numbers e = cc

before_held : Holds Item answer before
unfolding text_map assoc_map text_eq
before_held = has_wins stored before refl

before-IsNumberSet : IsNumberSet before
before-IsNumberSet = (λ m. two_numbers (Memᴰ.eq_of_singleton m), (λ m. Memᴰ.not-nil m, tt))

win_tournament_lem_example :
    (now : List Text) × ((win_tournament Item answer true 12 (bytes "a@x")).0
      ≡ update_wins (bytes "a@x") now ∷ [])
    × Added (to_string 12) before now
    × (((win_tournament Item answer true 12 (bytes "a@x")).1 ≡ ok tt) ↔ (true ≡ true))
win_tournament_lem_example =
    win_tournament_lem Item answer true 12 (bytes "a@x") before before_held before-IsNumberSet

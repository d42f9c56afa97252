-- ===== src/Bola/Db.antt =====
-- bola-api/src/db.rs: a player's profile as an item of a DynamoDB table. The table is not part of the model:
-- what its client answers is given, and the requests that write are results. The numbers of a profile are
-- 16 bits wide, those of a week are 64.
pub mod Laws
pub mod Sets
pub mod Wins
mod Tests
use mangle_apis.Base.{
  ℕ, Bool, true, false, Option, none, some, List, [], ◌∷◌, ◌++◌, if◌then◌else◌, map,
}
use mangle_apis.Base.Text.{Text, bytes, text_eq}
use mangle_apis.Base.Map.{MapApi}
use mangle_apis.Base.Outcome.{Outcome, ok, err, panic, ◌>>=◌}
use mangle_apis.Base.Decimal.{to_string, parse_u16}
use mangle_apis.Bola.WsApi.{UserProfile}

-- The variants of `AttributeValue` in use: a string, a number and a set of numbers.
pub data AttributeValue : Type 0 where
  s : Text → AttributeValue
  n : Text → AttributeValue
  ns : List Text → AttributeValue

pub data DbError : Type 0 where
  -- the error names the field
  could_not_deserialize : Text → DbError
  missing_username : DbError
  -- the client's error
  service : DbError

-- What the client answers to `get_item`, for an item of type `I`.
pub data GetAnswer (I : Type 0) : Type 0 where
  answered : Option I → GetAnswer I
  -- `ResourceNotFoundException`
  no_table : GetAnswer I
  get_failed : GetAnswer I

-- A request that writes: `put_item`, or `update_item` of the number set `tournament_wins`.
pub data Request (I : Type 0) : Type 0 where
  put_item : I → Request I
  update_wins : Text → List Text → Request I

unfoldable pub as_s : AttributeValue → Option Text
as_s (s text) = some text
as_s _ = none

unfoldable pub as_n : AttributeValue → Option Text
as_n (n text) = some text
as_n _ = none

unfoldable pub as_ns : AttributeValue → Option (List Text)
as_ns (ns texts) = some texts
as_ns _ = none

-- `deser!($field, $op)`: nothing if the field is not there, an error if it has another type.
unfoldable pub deser :
    {A : Type 0}
    → Text
    → (AttributeValue → Option A)
    → Option AttributeValue
    → Outcome DbError (Option A)
deser field op none = ok none
deser field op (some value) = elim (op value) [
  | none ↦ err (could_not_deserialize field)
  | some a ↦ ok (some a)
]

-- `deser!(num $field)?.unwrap_or_default()`.
unfoldable pub parse_field : Text → Option Text → Outcome DbError ℕ
parse_field field none = ok 0
parse_field field (some text) = elim (parse_u16 text) [
  | none ↦ err (could_not_deserialize field)
  | some number ↦ ok number
]

-- The loop over the strings of `tournament_wins`.
unfoldable pub parse_wins : List Text → Outcome DbError (List ℕ)
parse_wins [] = ok []
parse_wins (text ∷ texts) = elim (parse_u16 text) [
  | none ↦ err (could_not_deserialize (bytes "tournament_wins"))
  | some number ↦ parse_wins texts >>= λ rest. ok (number ∷ rest)
]

unfoldable pub wins_or_none : Option (List Text) → Outcome DbError (List ℕ)
wins_or_none none = ok []
wins_or_none (some texts) = parse_wins texts

unfoldable pub require_username : Option Text → Outcome DbError Text
require_username none = err missing_username
require_username (some username) = ok username

unfoldable pub contains : Text → List Text → Bool
contains week [] = false
contains week (win ∷ wins) = if text_eq win week then true else contains week wins

-- `if !tournament_wins.contains(&week) { tournament_wins.push(week) }`.
unfoldable pub add_win : Text → List Text → List Text
add_win week wins = if contains week wins then wins else wins ++ week ∷ []

module _ (M : MapApi Text AttributeValue) where
  unfoldable pub num : Text → M.Map → Outcome DbError ℕ
  num field item = deser field as_n (M.get item field) >>= parse_field field

  unfoldable pub map_to_user_profile : M.Map → Outcome DbError UserProfile
  map_to_user_profile item = num (bytes "easy_highscore") item >>= λ easy.
      num (bytes "normal_highscore") item >>= λ normal.
      num (bytes "expert_highscore") item >>= λ expert.
      deser (bytes "tournament_wins") as_ns (M.get item (bytes "tournament_wins"))
      >>= wins_or_none
      >>= λ wins.
          deser (bytes "username") as_s (M.get item (bytes "username"))
          >>= require_username
          >>= λ username. ok (record {
            username = username;
            easy_highscore = easy;
            normal_highscore = normal;
            expert_highscore = expert;
            tournament_wins = wins;
          })

  unfoldable pub get_user_profile_by_email : GetAnswer M.Map → Outcome DbError (Option UserProfile)
  get_user_profile_by_email no_table = ok none
  get_user_profile_by_email get_failed = err service
  get_user_profile_by_email (answered none) = ok none
  get_user_profile_by_email (answered (some item)) =
      map_to_user_profile item >>= λ profile. ok (some profile)

  unfoldable pub with_wins : List ℕ → M.Map → M.Map
  with_wins [] item = item
  with_wins (win ∷ wins) item =
      M.insert item (bytes "tournament_wins") (ns (map to_string (win ∷ wins)))

  unfoldable pub new_item : Text → Text → List ℕ → M.Map
  new_item email username tournament_wins =
      let item = M.insert M.empty (bytes "email") (s email) in
      let item = M.insert item (bytes "easy_highscore") (n (bytes "0")) in
      let item = M.insert item (bytes "normal_highscore") (n (bytes "0")) in
      let item = M.insert item (bytes "expert_highscore") (n (bytes "0")) in
      let item = M.insert item (bytes "username") (s username) in
      let item = M.insert item (bytes "unused") (n (bytes "0")) in with_wins tournament_wins item

  -- A request is made; the flag says whether the table takes it.
  abbrev pub request : Bool → Request M.Map → List (Request M.Map) × Outcome DbError (Unit {0})
  request accepted what = (what ∷ [], if accepted then ok tt else err service)

  unfoldable pub create_user_profile :
      Bool → Text → Text → List ℕ → List (Request M.Map) × Outcome DbError (Unit {0})
  create_user_profile accepted email username tournament_wins =
      request accepted (put_item (new_item email username tournament_wins))

  -- `x.get("tournament_wins")`, `as_ns` and `unwrap_or_default`; without a table this is an error.
  unfoldable pub stored_wins : GetAnswer M.Map → Outcome DbError (List Text)
  stored_wins no_table = err service
  stored_wins get_failed = err service
  stored_wins (answered none) = ok []
  stored_wins (answered (some item)) =
      deser (bytes "tournament_wins") as_ns (M.get item (bytes "tournament_wins")) >>= λ found.
      elim found [ none ↦ ok [] | some wins ↦ ok wins ]

  unfoldable pub win_tournament :
      GetAnswer M.Map → Bool → ℕ → Text → List (Request M.Map) × Outcome DbError (Unit {0})
  win_tournament answer accepted week email = elim (stored_wins answer) [
    | ok wins ↦ request accepted (update_wins email (add_win (to_string week) wins))
    | err e ↦ ([], err e)
    | panic ↦ ([], panic)
  ]

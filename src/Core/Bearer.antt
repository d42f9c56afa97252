-- ===== src/Core/Bearer.antt =====
-- mangle-api-core/src/auth/bearer.rs: `BearerAuth::authorize`, which guards every request. The set of
-- public paths is a `RegexSet`, given as a test; `to_str` is `HeaderValue::to_str`; comparing in
-- constant time is comparing.
pub mod Access
mod Tests
use mangle_apis.Base.{
  Bool, true, false, Option, none, some, List, [], ◌∷◌, ◌++◌, if◌then◌else◌, drop,
}
use mangle_apis.Base.Outcome.{Outcome, ok, err, panic}
use mangle_apis.Base.Text.{Text, bytes, text_eq, starts_with}

pub record BearerAuth : Type 0 where
  pub api_token : Text
  pub public_paths : Text → Bool

-- What `authorize` reads of a request.
pub record Request : Type 0 where
  pub path : Text
  pub query : Option Text
  pub authorization : Option Text

-- The response of status 401 with an empty body.
pub data Unauthorized : Type 0 where
  unauthorized : Unauthorized

-- `str::contains` of the standard library.
unfoldable pub contains : Text → Text → Bool
contains [] pat = starts_with [] pat
contains (c ∷ s) pat = let rest = contains s pat in if starts_with (c ∷ s) pat then true else rest

module _ (to_str : Text → Option Text) (constant_time_eq : Text → Text → Bool) where
  unfoldable pub check_header : BearerAuth → Text → Outcome Unauthorized (Unit {0})
  check_header auth value = elim (to_str value) [
    | none ↦ err unauthorized
    | some header ↦
        if starts_with header (bytes "Bearer ")
        then if constant_time_eq (drop 7 header) auth.api_token then ok tt else err unauthorized
        else err unauthorized
  ]

  unfoldable pub check_query : BearerAuth → Option Text → Outcome Unauthorized (Unit {0})
  check_query auth none = err unauthorized
  check_query auth (some query) = elim (to_str auth.api_token) [
    | none ↦ panic
    | some token ↦ if contains query (bytes "api_token=" ++ token) then ok tt else err unauthorized
  ]

  unfoldable pub authorize : BearerAuth → Request → Outcome Unauthorized (Unit {0})
  authorize auth request =
      if auth.public_paths request.path then ok tt else elim request.authorization [
        | some value ↦ check_header auth value
        | none ↦ check_query auth request.query
      ]

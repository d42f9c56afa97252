-- ===== src/Core/Token/Tests.antt =====
-- Tokens for users who are numbers, in a table that is a function.
use mangle_apis.Base.{ℕ, ◌≡◌, refl, none, some, List, [], ◌∷◌, ◌++◌, arith, ◌==◌, ==_iff, length}
use mangle_apis.Base.Text.{Text, bytes, text_eq, text_eq_iff, starts_with}
use mangle_apis.Base.Outcome.{ok}
use mangle_apis.Core.Token.{TokenEntry, TokenGranter, new, create_token, verify_token}
use mangle_apis.Core.Token.BiMap.{BiMapApi, function_bimap}
use mangle_apis.Core.Token.Laws.{SameTokens, as_verified}
use mangle_apis.Core.Token.Trace.{
  Event, created, ran, replay, holder, verify-holder, token_stays_valid,
}
use mangle_apis.Core.Token.Request.{
  find_from, find, to_lowercase, HeaderTokenConfig, Parts, from_request_parts, request_sound,
  IsAscii,
}

abbrev Table : BiMapApi Text ℕ (TokenEntry ℕ) (λ e. e.identifier)
Table = function_bimap (λ e. e.identifier) text_eq ◌==◌ text_eq_iff ==_iff

abbrev alpha : Text
alpha = bytes "aaaa"

abbrev events : List (Event ℕ)
events = ran alpha 20 ∷ created 1 alpha 10 ∷ []

verify-holder_example :
    ((verify_token Table alpha (replay Table 60 events)).1
      ≡ as_verified alpha (holder Table 60 alpha events))
    × SameTokens Table
        (verify_token Table alpha (replay Table 60 events)).0
        (replay Table 60 events)
verify-holder_example = verify-holder Table 60 events alpha

token_stays_valid_example :
    (verify_token Table alpha (replay Table 60 events)).1
    ≡ some (record { token = alpha; identifier = 1 })
token_stays_valid_example =
    token_stays_valid Table 60 alpha 1 10 [] (ran alpha 20 ∷ []) (omega arith, tt)

alpha_held :
    holder Table 60 alpha (created 1 alpha 10 ∷ [])
    ≡ some (record { wakes_at = 70; identifier = 1 })
unfolding holder function_bimap text_eq
alpha_held = refl

abbrev config : HeaderTokenConfig
config = record { header_name = bytes "Login-Token"; token_length = 4 }

abbrev granter : TokenGranter Table
granter = (create_token Table 1 alpha 10 (new Table 60)).0

abbrev by_header : Parts
by_header = record { headers = λ name. some alpha; query = none }

abbrev by_query : Parts
by_query = record { headers = λ name. none; query = some (bytes "login-token=aaaa&x=1") }

header_read :
    from_request_parts Table config (λ s. some s) by_header granter
    ≡ ((verify_token Table alpha granter).0, ok (record { token = alpha; identifier = 1 }))
unfolding from_request_parts verify_token create_token new function_bimap text_eq
header_read = refl

request_sound_example :
    (e : TokenEntry ℕ) × (Table.get granter.tokens alpha ≡ some e) × (e.identifier ≡ 1)
request_sound_example =
    request_sound Table config (λ s. some s) by_header granter (verify_token Table alpha granter).0
      (record { token = alpha; identifier = 1 }) header_read

name_lowered : to_lowercase (bytes "Login-Token") ≡ bytes "login-token"
unfolding to_lowercase
name_lowered = refl

query-IsAscii :
    IsAscii (([] ++ to_lowercase (bytes "Login-Token") ++ b'=' ∷ []) ++ (alpha ++ bytes "&x=1"))
unfolding to_lowercase
query-IsAscii = omega arith

query_found :
    find
      (([] ++ to_lowercase (bytes "Login-Token") ++ b'=' ∷ []) ++ (alpha ++ bytes "&x=1"))
      (to_lowercase (bytes "Login-Token"))
    ≡ some 0
unfolding find_from to_lowercase starts_with
query_found = refl

query_form :
    by_query.query
    ≡ some (([] ++ to_lowercase (bytes "Login-Token") ++ b'=' ∷ []) ++ (alpha ++ bytes "&x=1"))
unfolding to_lowercase
query_form = refl

eleven : length (to_lowercase (bytes "Login-Token")) ≡ 11
unfolding to_lowercase
eleven = refl

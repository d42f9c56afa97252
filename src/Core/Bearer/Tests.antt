-- ===== src/Core/Bearer/Tests.antt =====
-- A server with the token `k3y` and the public path `/`.
use mangle_apis.Base.{◌≡◌, ◌↔◌, refl, none, some}
use mangle_apis.Base.Text.{bytes, text_eq, text_eq_iff, starts_with}
use mangle_apis.Base.Outcome.{ok, err}
use mangle_apis.Core.Bearer.{
  BearerAuth, Request, unauthorized, contains, check_header, check_query, authorize,
}
use mangle_apis.Core.Bearer.Access.{Grants, authorize_iff}

abbrev auth : BearerAuth
auth = record { api_token = bytes "k3y"; public_paths = λ path. text_eq path (bytes "/") }

abbrev request : Request
request = record { path = bytes "/ws_api"; query = none; authorization = some (bytes "Bearer k3y") }

abbrev intruder : Request
intruder = record {
  path = bytes "/ws_api";
  query = some (bytes "api_token=k4y");
  authorization = none;
}

authorize_iff_example :
    (authorize (λ s. some s) text_eq auth request ≡ ok tt)
    ↔ Grants (λ s. some s) text_eq text_eq_iff auth request
authorize_iff_example = authorize_iff (λ s. some s) text_eq text_eq_iff auth request

request_admitted : authorize (λ s. some s) text_eq auth request ≡ ok tt
unfolding authorize check_header starts_with text_eq
request_admitted = refl

intruder_refused : authorize (λ s. some s) text_eq auth intruder ≡ err unauthorized
unfolding authorize check_query contains starts_with text_eq
intruder_refused = refl

-- ===== src/Core/Oauth2/Tests.antt =====
-- Sign-ins with a provider that turns a code and a verifier into the two texts one after the other, and a
-- client that shows its scopes.
use mangle_apis.Base.{ℕ, ◌≡◌, refl, true, false, Option, none, some, List, [], ◌∷◌, ◌++◌, map}
use mangle_apis.Base.Text.{Text, bytes, text_eq}
use mangle_apis.Base.Map.{MapApi, assoc_map, text_map}
use mangle_apis.Base.Outcome.{ok}
use mangle_apis.Core.Openid
use mangle_apis.Core.Openid.{AuthPages}
use mangle_apis.Core.Openid.Laws
use mangle_apis.Core.Oauth2.{
  BasicClient, Exchange, token, server_response, OauthApi, PendingSession, OauthState, verify_auth,
  initiate_auth, new_github_oauth_from_file, new_oauth_client,
}
use mangle_apis.Core.Oauth2.Laws.{
  Event, tracked, untracked, redirected, event_of, oidc_map, oidc_api, as_oidc, run,
  run-refines_oidc, initiate_auth-verify_auth,
}

abbrev exchanged : Text → Option Text → Exchange Text
exchanged code (some verifier) = token (code ++ verifier)
exchanged code none = server_response

abbrev api : OauthApi Text Text Text
api = record {
  is_url = λ url. true;
  authorize_url = λ client csrf scopes challenge. csrf;
  exchange_code = λ client code verifier. exchanged code verifier;
}

abbrev Sessions : MapApi Text (PendingSession Text)
Sessions = text_map (PendingSession Text)

abbrev nobody : OauthState api Sessions
nobody = record { pending_auths = Sessions.empty; sent = [] }

abbrev pages : AuthPages
pages = record {
  late = bytes "late";
  invalid = bytes "invalid";
  internal_error = bytes "error";
  success = bytes "success";
}

abbrev client : BasicClient
client = record {
  client_id = bytes "id";
  client_secret = bytes "secret";
  auth_url = bytes "https://a";
  token_url = bytes "https://t";
  redirect_url = bytes "https://r";
  revocation_url = none;
}

abbrev events : List (Event Text)
events =
    tracked (bytes "bbb") none client 8
    ∷ redirected (bytes "c") (bytes "bbb") pages
    ∷ untracked (bytes "bbb")
    ∷ []

github_client :
    new_github_oauth_from_file api {E = ℕ}
      (ok (record { client_id = bytes "id"; client_secret = bytes "secret" }))
      (bytes "https://r")
    ≡ ok (record client {
      auth_url = bytes "https://github.com/login/oauth/authorize";
      token_url = bytes "https://github.com/login/oauth/access_token";
    })
unfolding new_github_oauth_from_file new_oauth_client
github_client = refl

b_is_other : Sessions.key_eq (bytes "bbb") (bytes "aaa") ≡ false
unfolding text_map assoc_map text_eq
b_is_other = refl

run-refines_oidc_example :
    let later = run api Sessions events nobody in
    let later' =
      Openid.Laws.run
        (oidc_map Sessions)
        (oidc_api api Sessions)
        (map event_of events)
        (as_oidc api Sessions nobody) in
    (later' ≡ as_oidc api Sessions later)
    × (Openid.verify_auth
          (oidc_map Sessions)
          (oidc_api api Sessions)
          (bytes "c")
          (bytes "aaa")
          pages
          later'
        ≡ (
          as_oidc api Sessions (verify_auth api Sessions (bytes "c") (bytes "aaa") pages later).0,
          (verify_auth api Sessions (bytes "c") (bytes "aaa") pages later).1,
        ))
run-refines_oidc_example =
    run-refines_oidc api Sessions events (bytes "c") (bytes "aaa") pages nobody

initiate_auth-verify_auth_example :
    let started =
      (initiate_auth api Sessions true client
        (bytes "email" ∷ [])
        (bytes "aaa")
        (bytes "ch")
        (bytes "ver")
        7
        nobody).0 in
    let later = run api Sessions events started in
    let (after, page) = verify_auth api Sessions (bytes "c") (bytes "aaa") pages later in
    (after.sent ≡ later.sent ++ (7, bytes "cver") ∷ [])
    × (page ≡ bytes "success")
    × (verify_auth api Sessions (bytes "c") (bytes "aaa") pages after ≡ (after, bytes "late"))
initiate_auth-verify_auth_example =
    initiate_auth-verify_auth api Sessions true client (bytes "email" ∷ []) (bytes "aaa")
      (bytes "ch") (bytes "ver") 7 nobody events (bytes "c") pages (bytes "cver")
      (b_is_other, (b_is_other, (b_is_other, tt))) refl

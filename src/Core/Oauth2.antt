-- ===== src/Core/Oauth2.antt =====
-- mangle-api-core/src/auth/oauth2.rs: sign-ins by OAuth2, which wait for the browser's redirect, with a
-- PKCE verifier where the provider wants one. Crate oauth2 is a parameter: whether a URL is valid, the
-- address it makes for the browser, and what the provider answers to a code.
mod Laws
mod Tests
use mangle_apis.Base.{
  ℕ, Bool, true, false, Option, none, some, List, [], ◌∷◌, ◌++◌, ◌&&◌, if◌then◌else◌,
}
use mangle_apis.Base.Text.{Text, bytes}
use mangle_apis.Base.Map.{MapApi}
use mangle_apis.Base.Outcome.{Outcome, ok, err, panic, ◌>>=◌}
use mangle_apis.Core.Openid.{AuthPages}

-- What a `BasicClient` is made of.
pub record BasicClient : Type 0 where
  pub client_id : Text
  pub client_secret : Text
  pub auth_url : Text
  pub token_url : Text
  pub redirect_url : Text
  pub revocation_url : Option Text

-- What `request_async` answers: a token, the error of the provider's own answer, or another error.
pub data Exchange (Token : Type 0) : Type 0 where
  token : Token → Exchange Token
  server_response : Exchange Token
  other_error : Exchange Token

pub record OauthApi (Token Challenge Verifier : Type 0) : Type 0 where
  pub is_url : Text → Bool
  -- the client, the CSRF token, the scopes in order, the challenge
  pub authorize_url : BasicClient → Text → List Text → Option Challenge → Text
  pub exchange_code : BasicClient → Text → Option Verifier → Exchange Token

pub record PendingSession (Verifier : Type 0) : Type 0 where
  -- which receiver the sender belongs to
  pub ready_sender : ℕ
  pub pkce_code_verifier : Option Verifier
  pub client : BasicClient

-- The secrets in the files.
pub record GoogleSecret : Type 0 where
  pub client_id : Text
  pub client_secret : Text
  pub auth_uri : Text
  pub token_uri : Text

pub record GithubSecret : Type 0 where
  pub client_id : Text
  pub client_secret : Text

module _ {Token Challenge Verifier : Type 0} (api : OauthApi Token Challenge Verifier) where
  -- `Url::new(…).expect(…)`.
  abbrev pub expect_url {ℓ} : {E : Type ℓ} → Text → Outcome E Text
  expect_url url = if api.is_url url then ok url else panic

  abbrev pub expect_revocation {ℓ} : {E : Type ℓ} → Option Text → Outcome E (Option Text)
  expect_revocation none = ok none
  expect_revocation (some url) = expect_url url >>= λ url. ok (some url)

  unfoldable pub new_oauth_client {ℓ} :
      {E : Type ℓ} → Text → Text → Text → Text → Text → Option Text → Outcome E BasicClient
  new_oauth_client auth_url token_url client_id client_secret redirect_url revocation_url =
      expect_url auth_url >>= λ auth_url. expect_url token_url >>= λ token_url.
      expect_url redirect_url >>= λ redirect_url.
      expect_revocation revocation_url >>= λ revocation_url. ok (record {
        client_id = client_id;
        client_secret = client_secret;
        auth_url = auth_url;
        token_url = token_url;
        redirect_url = redirect_url;
        revocation_url = revocation_url;
      })

  -- The file is read and parsed by `read`, which can fail with its error. PKCE is on for this client.
  unfoldable pub new_google_oauth_from_file {ℓ} :
      {E : Type ℓ} → Outcome E GoogleSecret → Text → Outcome E BasicClient
  new_google_oauth_from_file read redirect_url = read >>= λ secrets.
      new_oauth_client secrets.auth_uri secrets.token_uri secrets.client_id secrets.client_secret
        redirect_url (some (bytes "https://oauth2.googleapis.com/revoke"))

  -- And off for this one.
  unfoldable pub new_github_oauth_from_file {ℓ} :
      {E : Type ℓ} → Outcome E GithubSecret → Text → Outcome E BasicClient
  new_github_oauth_from_file read redirect_url = read >>= λ secrets.
      new_oauth_client (bytes "https://github.com/login/oauth/authorize")
        (bytes "https://github.com/login/oauth/access_token") secrets.client_id
        secrets.client_secret redirect_url none

  module _ (P : MapApi Text (PendingSession Verifier)) where
    -- `OAuthState`, and what has been sent to the receivers.
    pub record OauthState : Type 0 where
      pub pending_auths : P.Map
      pub sent : List (ℕ × Token)

    unfoldable pub track_session :
        Text → Option Verifier → BasicClient → ℕ → OauthState → OauthState
    track_session csrf_token pkce_code_verifier client ready_sender state = record state {
      pending_auths = P.insert state.pending_auths csrf_token (record {
        ready_sender = ready_sender;
        pkce_code_verifier = pkce_code_verifier;
        client = client;
      });
    }

    -- Also the drop of an `Untracker`, when the future of `initiate_auth` ends, after
    -- `MAX_AUTH_WAIT_TIME` at the latest, or is dropped.
    unfoldable pub untrack_session : Text → OauthState → OauthState
    untrack_session csrf_token state = record state {
      pending_auths = P.remove state.pending_auths csrf_token;
    }

    -- `verify_auth`, which `oauth_redirect_handler` calls with the query of the redirect.
    unfoldable pub verify_auth : Text → Text → AuthPages → OauthState → OauthState × Text
    verify_auth auth_code csrf_token pages state = elim (P.get state.pending_auths csrf_token) [
      | none ↦ (state, pages.late)
      | some pending ↦
          let removed = record state { pending_auths = P.remove state.pending_auths csrf_token } in
          elim (api.exchange_code pending.client auth_code pending.pkce_code_verifier) [
            | token t ↦ (
              record removed { sent = state.sent ++ (pending.ready_sender, t) ∷ [] },
              pages.success,
            )
            | server_response ↦ (removed, pages.invalid)
            | other_error ↦ (removed, pages.internal_error)
          ]
    ]

    -- The challenge goes to the browser, the verifier stays, if the client is one with PKCE.
    abbrev pub if_pkce : {A : Type 0} → Bool → A → Option A
    if_pkce true a = some a
    if_pkce false a = none

    -- `initiate_auth`, up to the future that waits: the random CSRF token, the random challenge with its
    -- verifier, and the new channel are given.
    unfoldable pub initiate_auth :
        Bool
        → BasicClient
        → List Text
        → Text
        → Challenge
        → Verifier
        → ℕ
        → OauthState
        → OauthState × Text
    initiate_auth pkce client scopes csrf_token challenge verifier sender state = (
      track_session csrf_token (if_pkce pkce verifier) client sender state,
      api.authorize_url client csrf_token scopes (if_pkce pkce challenge),
    )

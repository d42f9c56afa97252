-- ===== src/Core/Openid.antt =====
-- mangle-api-core/src/auth/openid.rs: sign-ins that wait for the browser's redirect. Each has a CSRF token
-- of its own, under which the OpenID client and the sender of the answer are kept until the redirect
-- comes, or until the wait is over and the untracker drops them. The OpenID client (crate openid) is a
-- parameter: what it answers to a code.
pub mod Laws
mod Tests
use mangle_apis.Base.{ℕ, Bool, true, false, Option, none, some, List, [], ◌∷◌, ◌++◌}
use mangle_apis.Base.Text.{Text, bytes}
use mangle_apis.Base.Map.{MapApi}

-- `AuthPages`: the pages that a browser is shown. Setting a page replaces a borrow by an owned text.
pub record AuthPages : Type 0 where
  pub late : Text
  pub invalid : Text
  pub internal_error : Text
  pub success : Text

-- What `request_token` answers.
pub data TokenAnswer (IdToken : Type 0) : Type 0 where
  token : Option IdToken → TokenAnswer IdToken
  invalid_grant : TokenAnswer IdToken
  other_error : TokenAnswer IdToken

-- What the code uses of `DiscoveredClient`.
pub record ClientApi (Client IdToken Userinfo : Type 0) : Type 0 where
  pub request_token : Client → Text → TokenAnswer IdToken
  -- `none` is an error; the token is decoded in place
  pub decode_token : Client → IdToken → Option IdToken
  pub validate_token : Client → IdToken → Bool
  pub userinfo : IdToken → Userinfo

pub record PendingSession (Client : Type 0) : Type 0 where
  -- which receiver the sender belongs to
  pub ready_sender : ℕ
  pub client : Client

module _ {Client IdToken Userinfo : Type 0} (P : MapApi Text (PendingSession Client))
    (api : ClientApi Client IdToken Userinfo) where
  -- The pending sign-ins, and what has been sent to the receivers.
  pub record OidcState : Type 0 where
    pub pending_auths : P.Map
    pub sent : List (ℕ × Userinfo)

  unfoldable pub track_session : Text → Client → ℕ → OidcState → OidcState
  track_session csrf_token client ready_sender state = record state {
    pending_auths =
        P.insert state.pending_auths csrf_token
          (record { ready_sender = ready_sender; client = client });
  }

  -- Also what the drop of an `Untracker` does, when the sign-in ends, times out or is given up.
  unfoldable pub untrack_session : Text → OidcState → OidcState
  untrack_session csrf_token state = record state {
    pending_auths = P.remove state.pending_auths csrf_token;
  }

  -- The code that the browser brings, looked at by the client: the page, and the user where there is one.
  unfoldable pub check_token : Client → AuthPages → TokenAnswer IdToken → Text × Option Userinfo
  check_token client pages invalid_grant = (pages.invalid, none)
  check_token client pages other_error = (pages.internal_error, none)
  check_token client pages (token none) = (pages.internal_error, none)
  check_token client pages (token (some id_token)) = elim (api.decode_token client id_token) [
    | none ↦ (pages.internal_error, none)
    | some decoded ↦ elim (api.validate_token client decoded) [
      | true ↦ (pages.success, some (api.userinfo decoded))
      | false ↦ (pages.invalid, none)
    ]
  ]

  unfoldable pub verify_auth : Text → Text → AuthPages → OidcState → OidcState × Text
  verify_auth auth_code csrf_token pages state = elim (P.get state.pending_auths csrf_token) [
    | none ↦ (state, pages.late)
    | some pending ↦
        let removed = record state { pending_auths = P.remove state.pending_auths csrf_token } in
        let (page, user) =
          check_token pending.client pages (api.request_token pending.client auth_code) in
        elim user [
          | none ↦ (removed, page)
          | some userinfo ↦
              (record removed { sent = state.sent ++ (pending.ready_sender, userinfo) ∷ [] }, page)
        ]
  ]

  -- The loop that puts a space behind each scope, and `pop`, which takes the last one off.
  unfoldable pub spaced : List Text → Text
  spaced [] = []
  spaced (scope ∷ scopes) = scope ++ bytes " " ++ spaced scopes

  unfoldable pub pop : Text → Text
  pop [] = []
  pop (c ∷ []) = []
  pop (c ∷ d ∷ s) = c ∷ pop (d ∷ s)

  -- `initiate_auth`, up to the future that waits: the random CSRF token and the new channel are given, and
  -- so is `Client::auth_url` of the scope and the token.
  unfoldable pub initiate_auth :
      (Client → Text → Text → Text) → Client → List Text → Text → ℕ → OidcState → OidcState × Text
  initiate_auth auth_url client scopes csrf_token sender state = (
    track_session csrf_token client sender state,
    auth_url client (pop (spaced scopes)) csrf_token,
  )

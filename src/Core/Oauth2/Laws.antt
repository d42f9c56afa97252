-- ===== src/Core/Oauth2/Laws.antt =====
-- oauth2.rs keeps its pending sign-ins as openid.rs does: one is the other with another client, so that
-- what holds of the sign-ins there holds here.
use mangle_apis.Base.{
  ℕ, ◌≡◌, refl, sym, ap, ◌∙◌, subst, Bool, true, false, Option, none, some, List, [], ◌∷◌, ◌++◌,
  All, map, Option-cases, inl, inr, if◌then◌else◌,
}
use mangle_apis.Base.Text.{Text}
use mangle_apis.Base.Map.{MapApi}
use mangle_apis.Core.Openid
use mangle_apis.Core.Openid.{AuthPages, ClientApi, TokenAnswer, OidcState}
use mangle_apis.Core.Openid.Laws
use mangle_apis.Core.Oauth2.{
  BasicClient, Exchange, token, server_response, other_error, OauthApi, PendingSession, OauthState,
  track_session, untrack_session, verify_auth, if_pkce, initiate_auth,
}

-- A client of openid.rs: the client and the verifier of a sign-in.
abbrev pub Client : Type 0 → Type 0
Client Verifier = BasicClient × Option Verifier

abbrev pub to_oidc : {V : Type 0} → PendingSession V → Openid.PendingSession (Client V)
to_oidc session = record {
  ready_sender = session.ready_sender;
  client = (session.client, session.pkce_code_verifier);
}

abbrev pub of_oidc : {V : Type 0} → Openid.PendingSession (Client V) → PendingSession V
of_oidc session = record {
  ready_sender = session.ready_sender;
  pkce_code_verifier = session.client.1;
  client = session.client.0;
}

abbrev pub map_some {ℓ κ} : {A : Type ℓ} {B : Type κ} → (A → B) → Option A → Option B
map_some f none = none
map_some f (some a) = some (f a)

pub map_some-if {ℓ κ} :
    {A : Type ℓ} {B : Type κ} (f : A → B) (b : Bool) (x y : Option A)
    → map_some f (if b then x else y) ≡ (if b then map_some f x else map_some f y)
map_some-if f true x y = refl
map_some-if f false x y = refl

-- The same map, with sessions of the other kind.
unfoldable pub oidc_map :
    {V : Type 0} → MapApi Text (PendingSession V) → MapApi Text (Openid.PendingSession (Client V))
oidc_map P = record {
  Map = P.Map;
  key_eq = P.key_eq;
  empty = P.empty;
  get = λ m k. map_some to_oidc (P.get m k);
  insert = λ m k v. P.insert m k (of_oidc v);
  remove = P.remove;
  key_eq_iff = P.key_eq_iff;
  get-empty = λ k. ap (map_some to_oidc) (P.get-empty k);
  get-insert = λ m k v j.
      ap (map_some to_oidc) (P.get-insert m k (of_oidc v) j)
      ∙ map_some-if to_oidc (P.key_eq k j) (some (of_oidc v)) (P.get m j);
  get-remove = λ m k j.
      ap (map_some to_oidc) (P.get-remove m k j)
      ∙ map_some-if to_oidc (P.key_eq k j) none (P.get m j);
}

abbrev pub answer_of : {T : Type 0} → Exchange T → TokenAnswer T
answer_of (token t) = Openid.token (some t)
answer_of server_response = Openid.invalid_grant
answer_of other_error = Openid.other_error

-- What happens to the state, in order.
pub data Event (V : Type 0) : Type 0 where
  tracked : Text → Option V → BasicClient → ℕ → Event V
  untracked : Text → Event V
  redirected : Text → Text → AuthPages → Event V

abbrev pub event_of : {V : Type 0} → Event V → Openid.Laws.Event (Client V)
event_of (tracked csrf verifier client sender) = Openid.Laws.tracked csrf (client, verifier) sender
event_of (untracked csrf) = Openid.Laws.untracked csrf
event_of (redirected code csrf pages) = Openid.Laws.redirected code csrf pages

module _ {Token Challenge V : Type 0} (api : OauthApi Token Challenge V)
    (P : MapApi Text (PendingSession V)) where
  -- The client of openid.rs that exchanges codes as this one does.
  abbrev pub oidc_api : ClientApi (Client V) Token Token
  oidc_api = record {
    request_token = λ client code. answer_of (api.exchange_code client.0 code client.1);
    decode_token = λ client t. some t;
    validate_token = λ client t. true;
    userinfo = λ t. t;
  }

  abbrev pub as_oidc : OauthState api P → OidcState (oidc_map P) oidc_api
  unfolding oidc_map
  as_oidc state = record { pending_auths = state.pending_auths; sent = state.sent }

  abbrev pub of_state : OidcState (oidc_map P) oidc_api → OauthState api P
  unfolding oidc_map
  of_state state = record { pending_auths = state.pending_auths; sent = state.sent }

  abbrev pub happen : Event V → OauthState api P → OauthState api P
  happen (tracked csrf verifier client sender) state =
      track_session api P csrf verifier client sender state
  happen (untracked csrf) state = untrack_session api P csrf state
  happen (redirected code csrf pages) state = (verify_auth api P code csrf pages state).0

  abbrev pub run : List (Event V) → OauthState api P → OauthState api P
  run [] state = state
  run (event ∷ events) state = run events (happen event state)

  verify_auth-as_oidc :
      (code csrf : Text) (pages : AuthPages) (state : OauthState api P)
      → let (after, page) = verify_auth api P code csrf pages state in
        Openid.verify_auth (oidc_map P) oidc_api code csrf pages (as_oidc state)
        ≡ (as_oidc after, page)
  unfolding verify_auth Openid.verify_auth Openid.check_token oidc_map
  verify_auth-as_oidc code csrf pages state = elim (Option-cases (P.get state.pending_auths csrf)) [
    | inl gone ↦ rw (gone, Openid.verify_auth, verify_auth) refl
    | inr (session, there) ↦
        rw (there, Openid.verify_auth, verify_auth)
          (elim (api.exchange_code session.client code session.pkce_code_verifier)
            as (λ x.
              let removed : OauthState api P = record state {
                pending_auths = P.remove state.pending_auths csrf;
              } in
              let (page, user) =
                Openid.check_token (oidc_map P) oidc_api (to_oidc session).client pages
                  (answer_of x) in
              (elim user as (λ _. OidcState (oidc_map P) oidc_api × Text) [
                | none ↦ (as_oidc removed, page)
                | some t ↦ (
                  as_oidc (record removed { sent = state.sent ++ (session.ready_sender, t) ∷ [] }),
                  page,
                )
              ])
              ≡ (let (after, shown) = elim x as (λ _. OauthState api P × Text) [
                | token t ↦ (
                  record removed { sent = state.sent ++ (session.ready_sender, t) ∷ [] },
                  pages.success,
                )
                | server_response ↦ (removed, pages.invalid)
                | other_error ↦ (removed, pages.internal_error)
              ] in
                  (as_oidc after, shown))) [
                    | token t ↦ refl
                    | server_response ↦ refl
                    | other_error ↦ refl
                  ])
  ]

  happen-as_oidc :
      (event : Event V) (state : OauthState api P)
      → Openid.Laws.happen (oidc_map P) oidc_api (event_of event) (as_oidc state)
        ≡ as_oidc (happen event state)
  unfolding track_session untrack_session Openid.track_session Openid.untrack_session oidc_map
  happen-as_oidc (tracked csrf verifier client sender) state = refl
  happen-as_oidc (untracked csrf) state = refl
  happen-as_oidc (redirected code csrf pages) state =
      ap (λ r. r.0) (verify_auth-as_oidc code csrf pages state)

  run-as_oidc :
      (events : List (Event V)) (state : OauthState api P)
      → Openid.Laws.run (oidc_map P) oidc_api (map event_of events) (as_oidc state)
        ≡ as_oidc (run events state)
  run-as_oidc [] state = refl
  run-as_oidc (event ∷ events) state =
      ap (Openid.Laws.run (oidc_map P) oidc_api (map event_of events)) (happen-as_oidc event state)
      ∙ run-as_oidc events (happen event state)

  -- Sign-ins by OAuth2 and by OpenID are the same machine: after any starts, ends and redirects, the
  -- pending sign-ins and what has been sent are those of openid.rs after the same events, with a client
  -- there that is a client here together with the verifier of the sign-in, and whose valid answers,
  -- refusals and errors are those of the exchange here; and the next redirect is shown the same page.
  pub run-refines_oidc :
      (events : List (Event V)) (code csrf : Text) (pages : AuthPages) (state : OauthState api P)
      → let later = run events state in
        let later' = Openid.Laws.run (oidc_map P) oidc_api (map event_of events) (as_oidc state) in
        (later' ≡ as_oidc later)
        × (Openid.verify_auth (oidc_map P) oidc_api code csrf pages later' ≡ (
          as_oidc (verify_auth api P code csrf pages later).0,
          (verify_auth api P code csrf pages later).1,
        ))
  run-refines_oidc events code csrf pages state = (
    run-as_oidc events state,
    ap (Openid.verify_auth (oidc_map P) oidc_api code csrf pages) (run-as_oidc events state)
        ∙ verify_auth-as_oidc code csrf pages (run events state),
  )

  abbrev pub Elsewhere : Text → Event V → Type 0
  Elsewhere csrf (tracked other verifier client sender) = P.key_eq other csrf ≡ false
  Elsewhere csrf (untracked other) = P.key_eq other csrf ≡ false
  Elsewhere csrf (redirected code other pages) = P.key_eq other csrf ≡ false

  Elsewhere-event_of :
      (csrf : Text) (events : List (Event V))
      → All (Elsewhere csrf) events
      → All (Openid.Laws.Elsewhere (oidc_map P) oidc_api csrf) (map event_of events)
  unfolding oidc_map
  Elsewhere-event_of csrf [] h = tt
  Elsewhere-event_of csrf (tracked other verifier client sender ∷ events) h =
      (h.0, Elsewhere-event_of csrf events h.1)
  Elsewhere-event_of csrf (untracked other ∷ events) h = (h.0, Elsewhere-event_of csrf events h.1)
  Elsewhere-event_of csrf (redirected code other pages ∷ events) h =
      (h.0, Elsewhere-event_of csrf events h.1)

  -- A redirect there, from the state that is this one, told here.
  told :
      (code csrf : Text) (pages : AuthPages) (later : OauthState api P) (t : Token) (sender : ℕ)
      → let (after', page') =
          Openid.verify_auth (oidc_map P) oidc_api code csrf pages (as_oidc later) in
        (after'.sent ≡ later.sent ++ (sender, t) ∷ []) × (page' ≡ pages.success)
        → let (after, page) = verify_auth api P code csrf pages later in
          (after.sent ≡ later.sent ++ (sender, t) ∷ [])
          × (page ≡ pages.success)
          × (verify_auth api P code csrf pages after ≡ (after, pages.late))
  unfolding oidc_map
  told code csrf pages later t sender (sent, page) =
      let same = verify_auth-as_oidc code csrf pages later in
      let after = (verify_auth api P code csrf pages later).0 in
      (
        ap (λ r. r.0.sent) (sym same) ∙ sent,
        ap (λ r. r.1) (sym same) ∙ page,
        ap (λ r. (of_state r.0, r.1))
            (sym (verify_auth-as_oidc code csrf pages after)
              ∙ subst
                  (λ s.
                    Openid.verify_auth (oidc_map P) oidc_api code csrf pages s ≡ (s, pages.late))
                  (ap (λ r. r.0) same)
                  (Openid.Laws.redirect_once (oidc_map P) oidc_api code csrf pages (as_oidc later)
                    [] tt code pages)),
      )

  -- A sign-in that `initiate_auth` starts gets its token: whatever happens to other sign-ins in the
  -- meantime, a redirect with a code that the provider exchanges, given the verifier of this sign-in and no
  -- other, and none without PKCE, sends the token to this sign-in's receiver, behind what was sent before,
  -- and shows the page of success; a second redirect with the same CSRF token, at once, is late.
  pub initiate_auth-verify_auth :
      (pkce : Bool) (client : BasicClient) (scopes : List Text) (csrf : Text)
      (challenge : Challenge) (verifier : V) (sender : ℕ) (state : OauthState api P)
      (events : List (Event V)) (code : Text) (pages : AuthPages) (t : Token)
      → All (Elsewhere csrf) events
      → api.exchange_code client code (if_pkce api P pkce verifier) ≡ token t
      → let started =
          (initiate_auth api P pkce client scopes csrf challenge verifier sender state).0 in
        let later = run events started in
        let (after, page) = verify_auth api P code csrf pages later in
        (after.sent ≡ later.sent ++ (sender, t) ∷ [])
        × (page ≡ pages.success)
        × (verify_auth api P code csrf pages after ≡ (after, pages.late))
  unfolding initiate_auth track_session Openid.track_session oidc_map
  initiate_auth-verify_auth pkce client scopes csrf challenge verifier sender state events code
        pages t h e =
      let started =
        (initiate_auth api P pkce client scopes csrf challenge verifier sender state).0 in
      told code csrf pages (run events started) t sender (
        subst
          (λ later.
            let (after', page') = Openid.verify_auth (oidc_map P) oidc_api code csrf pages later in
            (after'.sent ≡ later.sent ++ (sender, t) ∷ []) × (page' ≡ pages.success))
          (run-as_oidc events started)
          (Openid.Laws.answer_reaches_sender (oidc_map P) oidc_api csrf
            (client, if_pkce api P pkce verifier) sender (as_oidc state) (map event_of events)
            (Elsewhere-event_of csrf events h) code pages t t (ap answer_of e) refl refl))

-- ===== src/Core/Openid/Laws.antt =====
-- Sequences of events on the pending sign-ins of openid.rs.
use mangle_apis.Base.{
  ℕ, ◌≡◌, refl, sym, ap, ◌∙◌, true, false, Option, none, some, List, [], ◌∷◌, ◌++◌, All, Bool-cases,
  Option-cases, inl, inr, if◌then◌else◌,
}
use mangle_apis.Base.Text.{Text}
use mangle_apis.Base.Map.{MapApi}
use mangle_apis.Core.Openid.{
  AuthPages, token, ClientApi, PendingSession, OidcState, track_session, untrack_session,
  check_token, verify_auth,
}

-- What happens to the state, in order.
pub data Event (Client : Type 0) : Type 0 where
  tracked : Text → Client → ℕ → Event Client
  untracked : Text → Event Client
  redirected : Text → Text → AuthPages → Event Client

module _ {Client IdToken Userinfo : Type 0} (P : MapApi Text (PendingSession Client))
    (api : ClientApi Client IdToken Userinfo) where
  abbrev pub happen : Event Client → OidcState P api → OidcState P api
  happen (tracked csrf client sender) state = track_session P api csrf client sender state
  happen (untracked csrf) state = untrack_session P api csrf state
  happen (redirected code csrf pages) state = (verify_auth P api code csrf pages state).0

  abbrev pub run : List (Event Client) → OidcState P api → OidcState P api
  run [] state = state
  run (event ∷ events) state = run events (happen event state)

  -- The event does not start a sign-in under the token.
  abbrev pub StartsNone : Text → Event Client → Type 0
  StartsNone csrf (tracked other client sender) = P.key_eq other csrf ≡ false
  StartsNone csrf (untracked other) = Unit {0}
  StartsNone csrf (redirected code other pages) = Unit {0}

  -- The event is about another token.
  abbrev pub Elsewhere : Text → Event Client → Type 0
  Elsewhere csrf (tracked other client sender) = P.key_eq other csrf ≡ false
  Elsewhere csrf (untracked other) = P.key_eq other csrf ≡ false
  Elsewhere csrf (redirected code other pages) = P.key_eq other csrf ≡ false

  abbrev pending : Text → OidcState P api → Option (PendingSession Client)
  pending csrf state = P.get state.pending_auths csrf

  get-verify_auth :
      (code other : Text) (pages : AuthPages) (state : OidcState P api) (csrf : Text)
      → pending csrf (verify_auth P api code other pages state).0
        ≡ (if P.key_eq other csrf then none else pending csrf state)
  unfolding verify_auth
  get-verify_auth code other pages state csrf =
      elim (Option-cases (P.get state.pending_auths other)) [
        | inl p ↦
            rw (p, verify_auth)
              (elim (Bool-cases (P.key_eq other csrf)) [
                | inl same ↦ rw same (
                    ap (λ k. P.get state.pending_auths k) (sym ((P.key_eq_iff other csrf).0 same))
                    ∙ p)
                | inr differ ↦ rw differ refl
              ])
        | inr (session, p) ↦
            rw (p, verify_auth)
              (sent_aside
                  (check_token P api session.client pages (api.request_token session.client code)).1
                  (check_token P api session.client pages (api.request_token session.client code)).0
                  session
                ∙ P.get-remove state.pending_auths other csrf)
      ]
    where
      sent_aside :
          (user : Option Userinfo) (page : Text) (session : PendingSession Client)
          → let removed : OidcState P api = record state {
            pending_auths = P.remove state.pending_auths other;
          } in
            pending csrf
              (elim user as (λ _. OidcState P api × Text) [
                | none ↦ (removed, page)
                | some userinfo ↦ (
                  record removed { sent = state.sent ++ (session.ready_sender, userinfo) ∷ [] },
                  page,
                )
              ]).0
            ≡ P.get (P.remove state.pending_auths other) csrf
      sent_aside none page session = refl
      sent_aside (some userinfo) page session = refl

  still_none :
      (csrf : Text) (event : Event Client) (state : OidcState P api)
      → StartsNone csrf event
      → pending csrf state ≡ none
      → pending csrf (happen event state) ≡ none
  unfolding track_session untrack_session
  still_none csrf (tracked other client sender) state differ gone =
      P.get-insert state.pending_auths other _ csrf ∙ rw differ gone
  still_none csrf (untracked other) state h gone =
      P.get-remove state.pending_auths other csrf ∙ elim (Bool-cases (P.key_eq other csrf)) [
        | inl same ↦ rw same refl
        | inr differ ↦ rw differ gone
      ]
  still_none csrf (redirected code other pages) state h gone =
      get-verify_auth code other pages state csrf ∙ elim (Bool-cases (P.key_eq other csrf)) [
        | inl same ↦ rw same refl
        | inr differ ↦ rw differ gone
      ]

  run-none :
      (csrf : Text) (events : List (Event Client)) (state : OidcState P api)
      → All (StartsNone csrf) events
      → pending csrf state ≡ none
      → pending csrf (run events state) ≡ none
  run-none csrf [] state h gone = gone
  run-none csrf (event ∷ events) state h gone =
      run-none csrf events (happen event state) h.1 (still_none csrf event state h.0 gone)

  kept :
      (csrf : Text) (event : Event Client) (state : OidcState P api)
      → Elsewhere csrf event
      → pending csrf (happen event state) ≡ pending csrf state
  unfolding track_session untrack_session
  kept csrf (tracked other client sender) state differ =
      P.get-insert state.pending_auths other _ csrf ∙ rw differ refl
  kept csrf (untracked other) state differ =
      P.get-remove state.pending_auths other csrf ∙ rw differ refl
  kept csrf (redirected code other pages) state differ =
      get-verify_auth code other pages state csrf ∙ rw differ refl

  run-kept :
      (csrf : Text) (events : List (Event Client)) (state : OidcState P api)
      → All (Elsewhere csrf) events
      → pending csrf (run events state) ≡ pending csrf state
  run-kept csrf [] state h = refl
  run-kept csrf (event ∷ events) state h =
      run-kept csrf events (happen event state) h.1 ∙ kept csrf event state h.0

  late_lem :
      (code csrf : Text) (pages : AuthPages) (state : OidcState P api)
      → pending csrf state ≡ none
      → verify_auth P api code csrf pages state ≡ (state, pages.late)
  unfolding verify_auth
  late_lem code csrf pages state gone = rw (gone, verify_auth) refl

  check_token_lem :
      (client : Client) (pages : AuthPages) (code : Text) (id_token decoded : IdToken)
      → api.request_token client code ≡ token (some id_token)
      → api.decode_token client id_token ≡ some decoded
      → api.validate_token client decoded ≡ true
      → check_token P api client pages (api.request_token client code)
        ≡ (pages.success, some (api.userinfo decoded))
  unfolding check_token
  check_token_lem client pages code id_token decoded r d v =
      rw r (rw (d, check_token) (rw (v, check_token) refl))

  on_time :
      (code csrf : Text) (pages : AuthPages) (state : OidcState P api)
      (session : PendingSession Client) (user : Userinfo)
      → pending csrf state ≡ some session
      → check_token P api session.client pages (api.request_token session.client code)
        ≡ (pages.success, some user)
      → let (after, page) = verify_auth P api code csrf pages state in
        (after.sent ≡ state.sent ++ (session.ready_sender, user) ∷ []) × (page ≡ pages.success)
  unfolding verify_auth
  on_time code csrf pages state session user there good =
      rw (there, verify_auth) (rw (good, verify_auth) (refl, ap (λ p. p.0) good))

  -- A redirect for a token is answered once: after it, whatever else happens except that a new sign-in
  -- starts under the same token, another redirect for that token is shown the page of those who are
  -- late, and changes nothing.
  pub redirect_once :
      (code csrf : Text) (pages : AuthPages) (state : OidcState P api)
      (events : List (Event Client))
      → All (StartsNone csrf) events
      → (code' : Text) (pages' : AuthPages)
      → let later = run events (verify_auth P api code csrf pages state).0 in
        verify_auth P api code' csrf pages' later ≡ (later, pages'.late)
  redirect_once code csrf pages state events h code' pages' =
      late_lem code' csrf pages' (run events (verify_auth P api code csrf pages state).0) (
        run-none csrf events (verify_auth P api code csrf pages state).0 h
          (get-verify_auth code csrf pages state csrf ∙ rw ((P.key_eq_iff csrf csrf).1 refl) refl))

  -- A sign-in that is pending gets its answer: whatever happens to other sign-ins in the meantime, a
  -- redirect with a code that the sign-in's own client turns into a valid token sends the user of that
  -- token to the sign-in's receiver, to no other, and shows the page of success.
  pub answer_reaches_sender :
      (csrf : Text) (client : Client) (sender : ℕ) (state : OidcState P api)
      (events : List (Event Client))
      → All (Elsewhere csrf) events
      → (code : Text) (pages : AuthPages) (id_token decoded : IdToken)
      → api.request_token client code ≡ token (some id_token)
      → api.decode_token client id_token ≡ some decoded
      → api.validate_token client decoded ≡ true
      → let later = run events (track_session P api csrf client sender state) in
        let (after, page) = verify_auth P api code csrf pages later in
        (after.sent ≡ later.sent ++ (sender, api.userinfo decoded) ∷ []) × (page ≡ pages.success)
  answer_reaches_sender csrf client sender state events h code pages id_token decoded r d v =
      on_time code csrf pages (run events (track_session P api csrf client sender state))
        (record { ready_sender = sender; client = client }) (api.userinfo decoded)
        (run-kept csrf events (track_session P api csrf client sender state) h ∙ just_tracked)
        (check_token_lem client pages code id_token decoded r d v)
    where
      just_tracked :
          pending csrf (track_session P api csrf client sender state)
          ≡ some (record { ready_sender = sender; client = client })
      just_tracked =
          unfold track_session in
          P.get-insert state.pending_auths csrf _ csrf ∙ rw ((P.key_eq_iff csrf csrf).1 refl) refl

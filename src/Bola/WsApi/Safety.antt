-- ===== src/Bola/WsApi/Safety.antt =====
-- Sessions of ws_api.rs whose peer never signs in.
use mathlib.Core.List.{Memᴰ}
use mathlib.Core.List.Memᴰ.{head, tail}
use mangle_apis.Base.{
  ℕ, zero, suc, ◌<◌, ◌≡◌, ◌≢◌, refl, sym, ap, ◌∙◌, subst, Option, none, List, [], ◌∷◌, length,
  arith, inl, inr, ◌⊎◌, All, Option-cases,
}
use mangle_apis.Base.Map.{MapApi}
use mangle_apis.Base.Text.{Text, bytes}
use mangle_apis.Base.Outcome.{ok, panic, Outcome-cases}
use mangle_apis.Core.Token.{TokenEntry, VerifiedToken}
use mangle_apis.Core.Token.BiMap.{BiMapApi}
use mangle_apis.Bola.WsApi.{
  LoginTokenData, WsApiMessage, score_update_request, logout, get_leaderboard, login,
  get_tournament, win_tournament, host_session, start_join_session, join_session_sdp_offers,
  join_session_ice, sdp_answer, Json, Env, SessionState, Ctx, Arrival, json_text, broken,
  unexpected, reading,
}
use mangle_apis.Bola.WsApi.Login.{send}
use mangle_apis.Bola.WsApi.Handle.{
  Round, again, ended, panicked, waiting, Exit, returned, crashed, listening, reply,
  logged_out_round, dispatch, after_recv, round, rounds, handle,
}
use mangle_apis.Bola.WsApi.Steps.{nat-cases}

module _ (C : MapApi Text (Unit {0}))
    (B : BiMapApi Text LoginTokenData (TokenEntry LoginTokenData) (λ e. e.identifier))
    (json : Json) where
  -- The result of a round that leaves the server and the session alone, and does not panic.
  record Idle (c : Ctx C B) (p : Ctx C B × Round) : Type 0 where
    handler_kept : p.0.handler ≡ c.handler
    session_kept : p.0.session ≡ c.session
    inbox_kept : p.0.stream.inbox ≡ c.stream.inbox
    safe : p.1 ≢ panicked

  going : again ≢ panicked
  going e = ground arith

  over : ended ≢ panicked
  over e = ground arith

  reply-Idle :
      (msg : Text) (r : Round) (c : Ctx C B) → r ≢ panicked → Idle c (reply C B json msg r c)
  unfolding reply send
  reply-Idle msg r c s = elim (nat-cases C B c.stream.sends_left) [
    | inl p ↦
        rw p (record { handler_kept = refl; session_kept = refl; inbox_kept = refl; safe = over })
    | inr (m, p) ↦
        rw p (record { handler_kept = refl; session_kept = refl; inbox_kept = refl; safe = s })
  ]

  stay-Idle : (c : Ctx C B) → Idle c (c, again)
  stay-Idle c = record { handler_kept = refl; session_kept = refl; inbox_kept = refl; safe = going }

  logged_out-Idle :
      (env : Env) (msg : WsApiMessage) (c : Ctx C B)
      → msg ≢ login
      → Idle c (logged_out_round C B json env msg c)
  unfolding logged_out_round
  logged_out-Idle env login c other = absurd (other refl)
  logged_out-Idle env get_leaderboard c other = stay-Idle c
  logged_out-Idle env get_tournament c other = stay-Idle c
  logged_out-Idle env (score_update_request d s) c other =
      reply-Idle (bytes "Must be logged in") again c going
  logged_out-Idle env logout c other = reply-Idle (bytes "Must be logged in") again c going
  logged_out-Idle env win_tournament c other = reply-Idle (bytes "Must be logged in") again c going
  logged_out-Idle env (host_session n) c other =
      reply-Idle (bytes "Must be logged in") again c going
  logged_out-Idle env (start_join_session n) c other =
      reply-Idle (bytes "Must be logged in") again c going
  logged_out-Idle env (join_session_sdp_offers x) c other =
      reply-Idle (bytes "Must be logged in") again c going
  logged_out-Idle env (join_session_ice i x) c other =
      reply-Idle (bytes "Must be logged in") again c going
  logged_out-Idle env (sdp_answer x y) c other =
      reply-Idle (bytes "Must be logged in") again c going

  dispatch-Idle :
      (env : Env) (msg : WsApiMessage) (c : Ctx C B)
      → msg ≢ login
      → c.session.login_token ≡ none
      → Idle c (dispatch C B json env msg c)
  dispatch-Idle env msg c other guest =
      subst (Idle c) (sym (dispatched c.session.login_token guest))
        (logged_out-Idle env msg c other)
    where
      dispatched :
          (token : Option (VerifiedToken LoginTokenData))
          → c.session.login_token ≡ none
          → dispatch C B json env msg c ≡ logged_out_round C B json env msg c
      dispatched token p = unfold dispatch in rw p refl

  -- Nothing in it is read as `login`.
  abbrev pub NoLogin : Arrival → Type 0
  NoLogin arrival = reading json.as_message arrival ≢ ok login

  reading-panic :
      (arrival : Arrival) → reading json.as_message arrival ≡ panic → arrival ≡ unexpected
  reading-panic (json_text s) e = elim (Option-cases (json.as_message s)) [
    | inl p ↦ absurd (cc (e, p))
    | inr (m, p) ↦ absurd (cc (e, p))
  ]
  reading-panic broken e = absurd (cc)
  reading-panic unexpected e = refl

  -- What a round leaves that has taken an arrival off the inbox.
  record Taken (c : Ctx C B) (arrival : Arrival) (rest : List Arrival) (p : Ctx C B × Round)
      : Type 0 where
    handler_same : p.0.handler ≡ c.handler
    session_same : p.0.session ≡ c.session
    inbox_rest : p.0.stream.inbox ≡ rest
    panics_at : p.1 ≡ panicked → arrival ≡ unexpected

  after_recv-Taken :
      (env : Env) (c : Ctx C B) (arrival : Arrival) (rest : List Arrival)
      → NoLogin arrival
      → c.session.login_token ≡ none
      → Taken c arrival rest (
          after_recv C B json env
            (reading json.as_message arrival)
            (record c { stream = record c.stream { inbox = rest } }))
  after_recv-Taken env c arrival rest harmless guest =
      elim (Outcome-cases (reading json.as_message arrival)) [
        | inl (msg, p) ↦
            let i =
              dispatch-Idle env msg (record c { stream = record c.stream { inbox = rest } })
                (λ is_login. harmless (p ∙ ap ok is_login)) guest in
            rw p (record {
              handler_same = i.handler_kept;
              session_same = i.session_kept;
              inbox_rest = i.inbox_kept;
              panics_at = λ q. absurd (i.safe q);
            })
        | inr (inl (e, p)) ↦ rw p (record {
          handler_same = refl;
          session_same = refl;
          inbox_rest = refl;
          panics_at = λ q. absurd (over q);
        })
        | inr (inr p) ↦ rw p (record {
          handler_same = refl;
          session_same = refl;
          inbox_rest = refl;
          panics_at = λ q. reading-panic arrival p;
        })
      ]

  -- What becomes of a session from which a peer stays a guest.
  abbrev Harmless : List Arrival → Ctx C B → Ctx C B × Exit → Type 0
  Harmless inbox c out =
      (out.0.handler ≡ c.handler)
      × ((out.1 ≡ returned) ⊎ (out.1 ≡ listening) ⊎ ((out.1 ≡ crashed) × Memᴰ unexpected inbox))

  later :
      (arrival : Arrival) (rest : List Arrival) (c d : Ctx C B) (out : Ctx C B × Exit)
      → d.handler ≡ c.handler
      → Harmless rest d out
      → Harmless (arrival ∷ rest) c out
  later arrival rest c d out same (kept, inl r) = (kept ∙ same, inl r)
  later arrival rest c d out same (kept, inr (inl l)) = (kept ∙ same, inr (inl l))
  later arrival rest c d out same (kept, inr (inr (e, m))) = (kept ∙ same, inr (inr (e, tail m)))

  follow :
      (arrival : Arrival) (rest : List Arrival) (c d : Ctx C B) (r : Round) (next : Ctx C B × Exit)
      → Taken c arrival rest (d, r)
      → c.session.login_token ≡ none
      → (d.stream.inbox ≡ rest → d.session.login_token ≡ none → Harmless rest d next)
      → Harmless (arrival ∷ rest) c (elim r as (λ _. Ctx C B × Exit) [
        | again ↦ next
        | ended ↦ (d, returned)
        | panicked ↦ (d, crashed)
        | waiting ↦ (d, listening)
      ])
  follow arrival rest c d again next t guest more =
      later arrival rest c d next t.handler_same
        (more t.inbox_rest (ap (λ (s : SessionState C B). s.login_token) t.session_same ∙ guest))
  follow arrival rest c d ended next t guest more = (t.handler_same, inl refl)
  follow arrival rest c d panicked next t guest more =
      (t.handler_same, inr (inr (refl, head (sym (t.panics_at refl)))))
  follow arrival rest c d waiting next t guest more = (t.handler_same, inr (inl refl))

  round-nil : (env : Env) (c : Ctx C B) → c.stream.inbox ≡ [] → round C B json env c ≡ (c, waiting)
  round-nil env c e = unfold round in rw e refl

  round-cons :
      (env : Env) (c : Ctx C B) (arrival : Arrival) (rest : List Arrival)
      → c.stream.inbox ≡ arrival ∷ rest
      → round C B json env c
        ≡ after_recv C B json env
            (reading json.as_message arrival)
            (record c { stream = record c.stream { inbox = rest } })
  round-cons env c arrival rest e = unfold round in rw e refl

  -- After a first round, as in `rounds`.
  abbrev Follows : ℕ → (ℕ → Env) → List Arrival → Ctx C B → Ctx C B × Round → Type 0
  Follows fuel envs inbox c p = Harmless inbox c (elim p.1 as (λ _. Ctx C B × Exit) [
    | again ↦ rounds C B json fuel (λ i. envs (suc i)) p.0
    | ended ↦ (p.0, returned)
    | panicked ↦ (p.0, crashed)
    | waiting ↦ (p.0, listening)
  ])

  rounds-Harmless :
      (fuel : ℕ) (inbox : List Arrival) (envs : ℕ → Env) (c : Ctx C B)
      → c.stream.inbox ≡ inbox
      → length inbox < fuel
      → All NoLogin inbox
      → c.session.login_token ≡ none
      → Harmless inbox c (rounds C B json fuel envs c)
  unfolding rounds
  rounds-Harmless zero inbox envs c e enough h guest = absurd (omega arith)
  rounds-Harmless (suc fuel) [] envs c e enough h guest =
      subst (Follows fuel envs [] c) (sym (round-nil (envs 0) c e)) (refl, inr (inl refl))
  rounds-Harmless (suc fuel) (arrival ∷ rest) envs c e enough h guest =
      let p =
        after_recv C B json (envs 0) (reading json.as_message arrival)
          (record c { stream = record c.stream { inbox = rest } }) in
      subst (Follows fuel envs (arrival ∷ rest) c) (sym (round-cons (envs 0) c arrival rest e)) (
        follow arrival rest c p.0 p.1 (rounds C B json fuel (λ i. envs (suc i)) p.0)
          (after_recv-Taken (envs 0) c arrival rest h.0 guest) guest
          (λ left still.
            rounds-Harmless fuel rest (λ i. envs (suc i)) p.0 left (omega arith) h.1 still))

  -- Whoever is not logged in and sends nothing that reads as `login` changes nothing on the server, neither
  -- the leaderboards nor the connected players nor the tokens, whatever else they send; and their session
  -- returns, or waits for a frame, or has panicked, which it does only if there is a frame among theirs
  -- at which receiving a message panics.
  pub guests_change_nothing :
      (envs : ℕ → Env) (c : Ctx C B)
      → All NoLogin c.stream.inbox
      → c.session.login_token ≡ none
      → let out = handle C B json envs c in
        (out.0.handler ≡ c.handler)
        × ((out.1 ≡ returned)
            ⊎ (out.1 ≡ listening)
            ⊎ ((out.1 ≡ crashed) × Memᴰ unexpected c.stream.inbox))
  unfolding handle
  guests_change_nothing envs c h guest =
      rounds-Harmless (suc (length c.stream.inbox)) c.stream.inbox envs c refl (omega arith) h guest

-- ===== src/Bola/WsApi/Ending.antt =====
-- What a session of ws_api.rs comes to.
use mangle_apis.Base.{
  ℕ, zero, suc, ◌≡◌, ◌≢◌, ◌⊎◌, refl, length, Option, none, some, List, [], ◌∷◌, Option-cases, inl,
  inr,
}
use mangle_apis.Base.Map.{MapApi}
use mangle_apis.Base.Text.{Text, bytes}
use mangle_apis.Base.Outcome.{Outcome, ok, err, panic}
use mangle_apis.Bola.Leaderboard.{LeaderboardEntry, add_leaderboard_entry, AddLeaderboardEntryError}
use mangle_apis.Core.Token.{TokenEntry, VerifiedToken}
use mangle_apis.Core.Token.BiMap.{BiMapApi}
use mangle_apis.Bola.WsApi.{
  LoginTokenData, WsApiMessage, score_update_request, logout, get_leaderboard, login,
  get_tournament, win_tournament, host_session, start_join_session, join_session_sdp_offers,
  join_session_ice, sdp_answer, Json, Env, Ctx, StreamStatus, open_status, closed_status, Stop,
  stream_error, awaiting, Arrival, reading,
}
use mangle_apis.Bola.WsApi.Login.{send, login_session}
use mangle_apis.Bola.WsApi.Handle.{
  Round, again, ended, panicked, waiting, Exit, returned, crashed, listening, out_of_fuel,
  parse_difficulty, reply, then_reply, after_add, update_score, logged_in_round, after_login,
  logged_out_round, dispatch, after_recv, round, rounds, handle,
}
use mangle_apis.Bola.WsApi.Steps.{nat-cases}
use mangle_apis.Bola.WsApi.Connections.{handle_fuel}
use mangle_apis.Bola.WsApi.Waiting.{Ends, login_session-Waits}

module _ (C : MapApi Text (Unit {0}))
    (B : BiMapApi Text LoginTokenData (TokenEntry LoginTokenData) (λ e. e.identifier))
    (json : Json) where
  -- A round that waits leaves nothing unread.
  abbrev Settles : Ctx C B × Round → Type 0
  Settles p = p.1 ≡ waiting → p.0.stream.inbox ≡ []

  reply-goes :
      (msg : Text) (r : Round) (c : Ctx C B) → r ≢ waiting → (reply C B json msg r c).1 ≢ waiting
  unfolding reply send
  reply-goes msg r c goes = elim (nat-cases C B c.stream.sends_left) [
    | inl p ↦ rw p (λ e. cc)
    | inr (m, p) ↦ rw p goes
  ]

  then_reply-goes :
      (d : Ctx C B) (r : Round) (msg : Text)
      → r ≢ waiting
      → (then_reply C B json (d, r) msg).1 ≢ waiting
  then_reply-goes d again msg goes = reply-goes msg again d (λ e. cc)
  then_reply-goes d ended msg goes = goes
  then_reply-goes d panicked msg goes = goes
  then_reply-goes d waiting msg goes = goes

  after_add-goes :
      (o : Outcome AddLeaderboardEntryError (Unit {0})) (c : Ctx C B)
      → (after_add C B json o c).1 ≢ waiting
  after_add-goes (ok _) c = reply-goes (bytes "Success") again c (λ e. cc)
  after_add-goes (err e) c =
      then_reply-goes (reply C B json (bytes "Internal Error") again c).0
        (reply C B json (bytes "Internal Error") again c).1 (bytes "Success")
        (reply-goes (bytes "Internal Error") again c (λ e. cc))
  after_add-goes panic c = λ e. cc

  update_score-goes :
      (env : Env) (token : VerifiedToken LoginTokenData) (difficulty : Text) (score : ℕ)
      (c : Ctx C B)
      → (update_score C B json env token difficulty score c).1 ≢ waiting
  unfolding update_score
  update_score-goes env token difficulty score c =
      elim (Option-cases (parse_difficulty difficulty)) [
        | inl p ↦
            rw (p, update_score) (reply-goes (bytes "Not a valid difficulty") ended c (λ e. cc))
        | inr (d, p) ↦
            let entry : LeaderboardEntry = record {
              score = score;
              username = token.identifier.username;
            } in
            let added =
              add_leaderboard_entry d token.identifier.email entry (env.put_accepted d) env.now
                c.handler.leaderboard in
            rw (p, update_score)
              (after_add-goes added.1
                (record c { handler = record c.handler { leaderboard = added.0 } }))
      ]

  logged_in-goes :
      (env : Env) (token : VerifiedToken LoginTokenData) (msg : WsApiMessage) (c : Ctx C B)
      → (logged_in_round C B json env token msg c).1 ≢ waiting
  unfolding logged_in_round
  logged_in-goes env token (score_update_request d s) c = update_score-goes env token d s c
  logged_in-goes env token login c = reply-goes (bytes "Already logged in") again c (λ e. cc)
  logged_in-goes env token logout c = λ e. cc
  logged_in-goes env token get_leaderboard c = λ e. cc
  logged_in-goes env token get_tournament c = λ e. cc
  logged_in-goes env token win_tournament c = λ e. cc
  logged_in-goes env token (host_session n) c = λ e. cc
  logged_in-goes env token (start_join_session n) c = λ e. cc
  logged_in-goes env token (join_session_sdp_offers x) c = λ e. cc
  logged_in-goes env token (join_session_ice i x) c = λ e. cc
  logged_in-goes env token (sdp_answer x y) c = λ e. cc

  after_login-Settles :
      (d : Ctx C B) (o : Outcome Stop StreamStatus)
      → Ends C B json (d, o)
      → Settles (after_login C B json (d, o))
  after_login-Settles d (ok open_status) h = λ e. absurd (cc)
  after_login-Settles d (ok closed_status) h = λ e. absurd (cc)
  after_login-Settles d (err stream_error) h = λ e. absurd (cc)
  after_login-Settles d (err awaiting) h = λ e. h refl
  after_login-Settles d panic h = λ e. absurd (cc)

  refused-goes : (c : Ctx C B) → (reply C B json (bytes "Must be logged in") again c).1 ≢ waiting
  refused-goes c = reply-goes (bytes "Must be logged in") again c (λ e. cc)

  logged_out-Settles :
      (env : Env) (msg : WsApiMessage) (c : Ctx C B) → Settles (logged_out_round C B json env msg c)
  unfolding logged_out_round
  logged_out-Settles env login c =
      after_login-Settles (login_session C B json env c).0 (login_session C B json env c).1
        (login_session-Waits C B json env c)
  logged_out-Settles env get_leaderboard c = λ e. absurd (cc)
  logged_out-Settles env get_tournament c = λ e. absurd (cc)
  logged_out-Settles env (score_update_request d s) c = λ e. absurd (refused-goes c e)
  logged_out-Settles env logout c = λ e. absurd (refused-goes c e)
  logged_out-Settles env win_tournament c = λ e. absurd (refused-goes c e)
  logged_out-Settles env (host_session n) c = λ e. absurd (refused-goes c e)
  logged_out-Settles env (start_join_session n) c = λ e. absurd (refused-goes c e)
  logged_out-Settles env (join_session_sdp_offers x) c = λ e. absurd (refused-goes c e)
  logged_out-Settles env (join_session_ice i x) c = λ e. absurd (refused-goes c e)
  logged_out-Settles env (sdp_answer x y) c = λ e. absurd (refused-goes c e)

  dispatch-Settles :
      (env : Env) (msg : WsApiMessage) (c : Ctx C B) → Settles (dispatch C B json env msg c)
  unfolding dispatch
  dispatch-Settles env msg c = go c.session.login_token
    where
      go :
          (token : Option (VerifiedToken LoginTokenData))
          → Settles (elim token as (λ _. Ctx C B × Round) [
            | some token ↦ logged_in_round C B json env token msg c
            | none ↦ logged_out_round C B json env msg c
          ])
      go none = logged_out-Settles env msg c
      go (some token) = λ e. absurd (logged_in-goes env token msg c e)

  after_recv-Settles :
      (env : Env) (o : Outcome Stop WsApiMessage) (c : Ctx C B)
      → Settles (after_recv C B json env o c)
  after_recv-Settles env (ok msg) c = dispatch-Settles env msg c
  after_recv-Settles env (err why) c = λ e. absurd (cc)
  after_recv-Settles env panic c = λ e. absurd (cc)

  round-Settles : (env : Env) (c : Ctx C B) → Settles (round C B json env c)
  unfolding round
  round-Settles env c = go c.stream.inbox refl
    where
      go :
          (inbox : List Arrival)
          → c.stream.inbox ≡ inbox
          → Settles (elim inbox as (λ _. Ctx C B × Round) [
            | [] ↦ (c, waiting)
            | arrival ∷ rest ↦
                after_recv C B json env
                  (reading json.as_message arrival)
                  (record c { stream = record c.stream { inbox = rest } })
          ])
      go [] e = λ w. e
      go (arrival ∷ rest) e =
          after_recv-Settles env (reading json.as_message arrival)
            (record c { stream = record c.stream { inbox = rest } })

  -- A session that listens has nothing unread.
  abbrev Exhausted : Ctx C B × Exit → Type 0
  Exhausted out = out.1 ≡ listening → out.0.stream.inbox ≡ []

  after-Exhausted :
      (d : Ctx C B) (r : Round) (next : Ctx C B × Exit)
      → Settles (d, r)
      → Exhausted next
      → Exhausted (elim r as (λ _. Ctx C B × Exit) [
        | again ↦ next
        | ended ↦ (d, returned)
        | panicked ↦ (d, crashed)
        | waiting ↦ (d, listening)
      ])
  after-Exhausted d again next h more = more
  after-Exhausted d ended next h more = λ e. absurd (cc)
  after-Exhausted d panicked next h more = λ e. absurd (cc)
  after-Exhausted d waiting next h more = λ e. h refl

  rounds-Exhausted :
      (fuel : ℕ) (envs : ℕ → Env) (c : Ctx C B) → Exhausted (rounds C B json fuel envs c)
  unfolding rounds
  rounds-Exhausted zero envs c = λ e. absurd (cc)
  rounds-Exhausted (suc fuel) envs c =
      let one_round = round C B json (envs 0) c in
      after-Exhausted one_round.0 one_round.1 (rounds C B json fuel (λ i. envs (suc i)) one_round.0)
        (round-Settles (envs 0) c) (rounds-Exhausted fuel (λ i. envs (suc i)) one_round.0)

  -- What a session comes to, whatever arrives and whatever the outside answers: in at most one round more
  -- than there are arrivals, its loop has returned, or has panicked, or everything that arrived has been
  -- read and it waits for a frame, in the loop or in a sign-up, on a connection that stays open.
  pub handle_ends :
      (envs : ℕ → Env) (c : Ctx C B)
      → let out = handle C B json envs c in
        (out.1 ≡ returned) ⊎ (out.1 ≡ crashed) ⊎ ((out.1 ≡ listening) × (out.0.stream.inbox ≡ []))
  unfolding handle
  handle_ends envs c = by_exit (handle C B json envs c).1 (handle_fuel C B json envs c) exhausted
    where
      exhausted : Exhausted (handle C B json envs c)
      exhausted = unfold handle in rounds-Exhausted (suc (length c.stream.inbox)) envs c

      by_exit :
          (e : Exit)
          → e ≢ out_of_fuel
          → (e ≡ listening → (handle C B json envs c).0.stream.inbox ≡ [])
          → (e ≡ returned)
            ⊎ (e ≡ crashed)
            ⊎ ((e ≡ listening) × ((handle C B json envs c).0.stream.inbox ≡ []))
      by_exit returned fuel h = inl refl
      by_exit crashed fuel h = inr (inl refl)
      by_exit listening fuel h = inr (inr (refl, h refl))
      by_exit out_of_fuel fuel h = absurd (fuel refl)

-- ===== src/Bola/WsApi/Rounds.antt =====
-- The rounds of a session as sequences of steps.
use mangle_apis.Base.{ℕ, ◌≡◌, refl, Option, none, some, List, [], ◌∷◌, Option-cases, inl, inr}
use mangle_apis.Base.Map.{MapApi}
use mangle_apis.Base.Text.{Text, bytes}
use mangle_apis.Base.Outcome.{Outcome, ok, err, panic}
use mangle_apis.Bola.Leaderboard.{LeaderboardEntry, add_leaderboard_entry, AddLeaderboardEntryError}
use mangle_apis.Core.Token.{TokenEntry, VerifiedToken}
use mangle_apis.Core.Token.BiMap.{BiMapApi}
use mangle_apis.Bola.WsApi.{
  LoginTokenData, WsApiMessage, score_update_request, logout, get_leaderboard, login,
  get_tournament, win_tournament, host_session, start_join_session, join_session_sdp_offers,
  join_session_ice, sdp_answer, say, Json, Env, Ctx, StreamStatus, open_status, closed_status, Stop,
  stream_error, awaiting, Arrival, reading,
}
use mangle_apis.Bola.WsApi.Login.{send, login_session}
use mangle_apis.Bola.WsApi.Handle.{
  Round, again, ended, panicked, waiting, parse_difficulty, reply, then_reply, after_add,
  update_score, logged_in_round, after_login, logged_out_round, dispatch, after_recv, round,
}
use mangle_apis.Bola.WsApi.Steps.{scored, Reach, here, one, join}
use mangle_apis.Bola.WsApi.LoginSteps.{send-Moves, login_session-Moves}

module _ (C : MapApi Text (Unit {0}))
    (B : BiMapApi Text LoginTokenData (TokenEntry LoginTokenData) (λ e. e.identifier))
    (json : Json) where
  abbrev Goes : (Ctx C B → Ctx C B × Round) → Type 0
  Goes f = (c : Ctx C B) → Reach C B c (f c).0

  reply-Goes : (msg : Text) (r : Round) → Goes (reply C B json msg r)
  unfolding reply
  reply-Goes msg r c = go (send C B json (say msg) c).1
    where
      go :
          (o : Outcome Stop (Unit {0}))
          → Reach C B c
              (elim o as (λ _. Ctx C B × Round) [
                | ok _ ↦ ((send C B json (say msg) c).0, r)
                | err _ ↦ ((send C B json (say msg) c).0, ended)
                | panic ↦ ((send C B json (say msg) c).0, panicked)
              ]).0
      go (ok _) = send-Moves C B json (say msg) c
      go (err _) = send-Moves C B json (say msg) c
      go panic = send-Moves C B json (say msg) c

  then_reply-Reach :
      (c d : Ctx C B) (r : Round) (msg : Text)
      → Reach C B c d
      → Reach C B c (then_reply C B json (d, r) msg).0
  then_reply-Reach c d again msg q = join C B q (reply-Goes msg again d)
  then_reply-Reach c d ended msg q = q
  then_reply-Reach c d panicked msg q = q
  then_reply-Reach c d waiting msg q = q

  after_add-Goes : (o : Outcome AddLeaderboardEntryError (Unit {0})) → Goes (after_add C B json o)
  after_add-Goes (ok _) c = reply-Goes (bytes "Success") again c
  after_add-Goes (err e) c =
      then_reply-Reach c (reply C B json (bytes "Internal Error") again c).0
        (reply C B json (bytes "Internal Error") again c).1 (bytes "Success")
        (reply-Goes (bytes "Internal Error") again c)
  after_add-Goes panic c = here

  update_score-Goes :
      (env : Env) (token : VerifiedToken LoginTokenData) (difficulty : Text) (score : ℕ)
      → Goes (update_score C B json env token difficulty score)
  unfolding update_score
  update_score-Goes env token difficulty score c =
      elim (Option-cases (parse_difficulty difficulty)) [
        | inl p ↦ rw (p, update_score) (reply-Goes (bytes "Not a valid difficulty") ended c)
        | inr (d, p) ↦
            let entry : LeaderboardEntry = record {
              score = score;
              username = token.identifier.username;
            } in
            let added =
              add_leaderboard_entry d token.identifier.email entry (env.put_accepted d) env.now
                c.handler.leaderboard in
            rw (p, update_score)
              (join C B
                (one C B (scored d token.identifier.email entry (env.put_accepted d) env.now))
                (after_add-Goes added.1
                  (record c { handler = record c.handler { leaderboard = added.0 } })))
      ]

  logged_in-Goes :
      (env : Env) (token : VerifiedToken LoginTokenData) (msg : WsApiMessage)
      → Goes (logged_in_round C B json env token msg)
  unfolding logged_in_round
  logged_in-Goes env token (score_update_request d s) c = update_score-Goes env token d s c
  logged_in-Goes env token login c = reply-Goes (bytes "Already logged in") again c
  logged_in-Goes env token logout c = here
  logged_in-Goes env token get_leaderboard c = here
  logged_in-Goes env token get_tournament c = here
  logged_in-Goes env token win_tournament c = here
  logged_in-Goes env token (host_session n) c = here
  logged_in-Goes env token (start_join_session n) c = here
  logged_in-Goes env token (join_session_sdp_offers x) c = here
  logged_in-Goes env token (join_session_ice i x) c = here
  logged_in-Goes env token (sdp_answer x y) c = here

  after_login-Reach :
      (c d : Ctx C B) (o : Outcome Stop StreamStatus)
      → Reach C B c d
      → Reach C B c (after_login C B json (d, o)).0
  after_login-Reach c d (ok open_status) q = q
  after_login-Reach c d (ok closed_status) q = q
  after_login-Reach c d (err stream_error) q = q
  after_login-Reach c d (err awaiting) q = q
  after_login-Reach c d panic q = q

  logged_out-Goes : (env : Env) (msg : WsApiMessage) → Goes (logged_out_round C B json env msg)
  unfolding logged_out_round
  logged_out-Goes env login c =
      after_login-Reach c (login_session C B json env c).0 (login_session C B json env c).1
        (login_session-Moves C B json env c)
  logged_out-Goes env get_leaderboard c = here
  logged_out-Goes env get_tournament c = here
  logged_out-Goes env (score_update_request d s) c = reply-Goes (bytes "Must be logged in") again c
  logged_out-Goes env logout c = reply-Goes (bytes "Must be logged in") again c
  logged_out-Goes env win_tournament c = reply-Goes (bytes "Must be logged in") again c
  logged_out-Goes env (host_session n) c = reply-Goes (bytes "Must be logged in") again c
  logged_out-Goes env (start_join_session n) c = reply-Goes (bytes "Must be logged in") again c
  logged_out-Goes env (join_session_sdp_offers x) c = reply-Goes (bytes "Must be logged in") again c
  logged_out-Goes env (join_session_ice i x) c = reply-Goes (bytes "Must be logged in") again c
  logged_out-Goes env (sdp_answer x y) c = reply-Goes (bytes "Must be logged in") again c

  dispatch-Goes : (env : Env) (msg : WsApiMessage) → Goes (dispatch C B json env msg)
  unfolding dispatch
  dispatch-Goes env msg c = go c.session.login_token
    where
      go :
          (token : Option (VerifiedToken LoginTokenData))
          → Reach C B c
              (elim token as (λ _. Ctx C B × Round) [
                | some token ↦ logged_in_round C B json env token msg c
                | none ↦ logged_out_round C B json env msg c
              ]).0
      go none = logged_out-Goes env msg c
      go (some token) = logged_in-Goes env token msg c

  after_recv-Goes : (env : Env) (o : Outcome Stop WsApiMessage) → Goes (after_recv C B json env o)
  after_recv-Goes env (ok msg) c = dispatch-Goes env msg c
  after_recv-Goes env (err e) c = here
  after_recv-Goes env panic c = here

  -- A round waits on an empty inbox, and otherwise takes an arrival off it and goes on by steps.
  pub data Played (c : Ctx C B) : Ctx C B × Round → Type 0 where
    no_frame : Played c (c, waiting)
    frame_read :
        (arrival : Arrival) (rest : List Arrival) (d : Ctx C B) (r : Round)
        → c.stream.inbox ≡ arrival ∷ rest
        → Reach C B (record c { stream = record c.stream { inbox = rest } }) d
        → Played c (d, r)

  pub round-Played : (env : Env) (c : Ctx C B) → Played c (round C B json env c)
  unfolding round
  round-Played env c = go c.stream.inbox refl
    where
      go :
          (inbox : List Arrival)
          → c.stream.inbox ≡ inbox
          → Played c (elim inbox as (λ _. Ctx C B × Round) [
            | [] ↦ (c, waiting)
            | arrival ∷ rest ↦
                after_recv C B json env
                  (reading json.as_message arrival)
                  (record c { stream = record c.stream { inbox = rest } })
          ])
      go [] e = no_frame
      go (arrival ∷ rest) e =
          let c' : Ctx C B = record c { stream = record c.stream { inbox = rest } } in
          let msg = reading json.as_message arrival in
          frame_read arrival rest (after_recv C B json env msg c').0
            (after_recv C B json env msg c').1 e (after_recv-Goes env msg c')

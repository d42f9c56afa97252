-- ===== src/Bola/WsApi/Handle.antt =====
-- `WsApiHandler::handle`: the loop over a player's messages.
use mangle_apis.Base.{ℕ, zero, suc, Option, none, some, [], ◌∷◌, if◌then◌else◌, length}
use mangle_apis.Base.Map.{MapApi}
use mangle_apis.Base.Text.{Text, bytes, text_eq}
use mangle_apis.Base.Outcome.{Outcome, ok, err, panic}
use mangle_apis.Bola.Leaderboard.{
  Difficulty, easy, normal, expert, LeaderboardEntry, add_leaderboard_entry,
  AddLeaderboardEntryError,
}
use mangle_apis.Core.Token.{TokenEntry, VerifiedToken}
use mangle_apis.Core.Token.BiMap.{BiMapApi}
use mangle_apis.Bola.WsApi.{
  LoginTokenData, WsApiMessage, score_update_request, get_leaderboard, login, get_tournament, say,
  Json, Env, Ctx, StreamStatus, open_status, closed_status, Stop, stream_error, awaiting, reading,
}
use mangle_apis.Bola.WsApi.Login.{send, login_session}

-- How one round of the loop ends.
pub data Round : Type 0 where
  -- the next message
  again : Round
  -- `break` or `return`
  ended : Round
  -- `todo!()`, or a panic further down
  panicked : Round
  -- the connection is open and silent
  waiting : Round

-- What a session comes to; `listening` still waits for a frame. `out_of_fuel` is no outcome of the program.
pub data Exit : Type 0 where
  returned crashed listening out_of_fuel : Exit

-- The match on the difficulty's name.
unfoldable pub parse_difficulty : Text → Option Difficulty
parse_difficulty s =
    if text_eq s (bytes "easy")
    then some easy
    else if text_eq s (bytes "normal")
    then some normal
    else if text_eq s (bytes "expert")
    then some expert
    else none

module _ (C : MapApi Text (Unit {0}))
    (B : BiMapApi Text LoginTokenData (TokenEntry LoginTokenData) (λ e. e.identifier))
    (json : Json) where
  abbrev State : Type 0
  State = Ctx C B

  -- The macro `send!` of `handle`: a stream that cannot send ends the session.
  unfoldable pub reply : Text → Round → State → State × Round
  reply msg next c = elim (send C B json (say msg) c).1 [
    | ok _ ↦ ((send C B json (say msg) c).0, next)
    | err _ ↦ ((send C B json (say msg) c).0, ended)
    | panic ↦ ((send C B json (say msg) c).0, panicked)
  ]

  abbrev pub then_reply : State × Round → Text → State × Round
  then_reply (c, again) msg = reply msg again c
  then_reply (c, ended) msg = (c, ended)
  then_reply (c, panicked) msg = (c, panicked)
  then_reply (c, waiting) msg = (c, waiting)

  abbrev pub after_add : Outcome AddLeaderboardEntryError (Unit {0}) → State → State × Round
  after_add (ok _) c = reply (bytes "Success") again c
  after_add (err e) c = then_reply (reply (bytes "Internal Error") again c) (bytes "Success")
  after_add panic c = (c, panicked)

  -- `ScoreUpdateRequest` of a player who is logged in.
  unfoldable pub update_score :
      Env → VerifiedToken LoginTokenData → Text → ℕ → State → State × Round
  update_score env token difficulty score c = elim (parse_difficulty difficulty) [
    | none ↦ reply (bytes "Not a valid difficulty") ended c
    | some d ↦
        let entry : LeaderboardEntry = record {
          score = score;
          username = token.identifier.username;
        } in
        let (after, result) =
          add_leaderboard_entry d token.identifier.email entry (env.put_accepted d) env.now
            c.handler.leaderboard in
        after_add result (record c { handler = record c.handler { leaderboard = after } })
  ]

  unfoldable pub logged_in_round :
      Env → VerifiedToken LoginTokenData → WsApiMessage → State → State × Round
  logged_in_round env token (score_update_request difficulty score) c =
      update_score env token difficulty score c
  logged_in_round env token login c = reply (bytes "Already logged in") again c
  logged_in_round env token _ c = (c, panicked)

  abbrev pub after_login : State × Outcome Stop StreamStatus → State × Round
  after_login (c, ok open_status) = (c, again)
  after_login (c, ok closed_status) = (c, ended)
  after_login (c, err stream_error) = (c, ended)
  after_login (c, err awaiting) = (c, waiting)
  after_login (c, panic) = (c, panicked)

  unfoldable pub logged_out_round : Env → WsApiMessage → State → State × Round
  logged_out_round env get_leaderboard c = (c, again)
  logged_out_round env get_tournament c = (c, again)
  logged_out_round env login c = after_login (login_session C B json env c)
  logged_out_round env _ c = reply (bytes "Must be logged in") again c

  unfoldable pub dispatch : Env → WsApiMessage → State → State × Round
  dispatch env msg c = elim c.session.login_token [
    | some token ↦ logged_in_round env token msg c
    | none ↦ logged_out_round env msg c
  ]

  abbrev pub after_recv : Env → Outcome Stop WsApiMessage → State → State × Round
  after_recv env (ok msg) c = dispatch env msg c
  after_recv env (err e) c = (c, ended)
  after_recv env panic c = (c, panicked)

  -- One round: receive a message and act on it.
  unfoldable pub round : Env → State → State × Round
  round env c = elim c.stream.inbox [
    | [] ↦ (c, waiting)
    | arrival ∷ rest ↦
        after_recv env (reading json.as_message arrival)
          (record c { stream = record c.stream { inbox = rest } })
  ]

  -- The loop, by the number of rounds; `envs` gives the environment of each round.
  unfoldable pub rounds : ℕ → (ℕ → Env) → State → State × Exit
  rounds zero envs c = (c, out_of_fuel)
  rounds (suc fuel) envs c =
      let next = rounds fuel (λ i. envs (suc i)) (round (envs 0) c).0 in
      elim (round (envs 0) c).1 [
        | again ↦ next
        | ended ↦ ((round (envs 0) c).0, returned)
        | panicked ↦ ((round (envs 0) c).0, crashed)
        | waiting ↦ ((round (envs 0) c).0, listening)
      ]

  -- The fuel is one round more than there are arrivals to come.
  unfoldable pub handle : (ℕ → Env) → State → State × Exit
  handle envs c = rounds (suc (length c.stream.inbox)) envs c

-- ===== src/Bola/WsApi/Login.antt =====
-- `WsApiHandler::login`: sign-in, the profile of a known player or the sign-up of a new one, and the
-- token of the session.
use mangle_apis.Base.{
  ℕ, zero, suc, Bool, true, false, Option, none, some, List, [], ◌∷◌, ◌++◌, if◌then◌else◌,
}
use mangle_apis.Base.Map.{MapApi}
use mangle_apis.Base.Text.{Text, bytes}
use mangle_apis.Base.Outcome.{ok, err, panic}
use mangle_apis.Bola.Leaderboard.{
  Difficulty, easy, normal, expert, LeaderboardEntry, add_leaderboard_entry,
}
use mangle_apis.Core.Token.{TokenEntry, create_token}
use mangle_apis.Core.Token.BiMap.{BiMapApi}
use mangle_apis.Bola.WsApi.{
  LoginTokenData, UserProfile, Reply, say, profile, Json, AuthEvent, finished, interrupted, found,
  missing, failed, Env, Ctx, connected, StreamStatus, open_status, closed_status, stream_error,
  awaiting, Arrival, reading, Act, continue, ◌>>=◌, ◌>>◌, pure,
}

module _ (C : MapApi Text (Unit {0}))
    (B : BiMapApi Text LoginTokenData (TokenEntry LoginTokenData) (λ e. e.identifier))
    (json : Json) where
  abbrev Session : Type 0 → Type 0
  Session A = Act (Ctx C B) A

  -- `stream.send_message(msg).await?`.
  unfoldable pub send : Reply → Session (Unit {0})
  send r c = elim c.stream.sends_left [
    | zero ↦ (c, err stream_error)
    | suc n ↦ (
      record c { stream = record c.stream { outbox = c.stream.outbox ++ r ∷ []; sends_left = n } },
      ok tt,
    )
  ]

  -- `send!($msg); return Ok(status)`.
  unfoldable pub finish : Text → StreamStatus → Session StreamStatus
  finish msg status = do send (say msg); pure status

  -- `leaderboard.add_…_entry(…)`; the error is only logged.
  unfoldable pub add_entry : Env → Text → Text → Difficulty → ℕ → Session (Unit {0})
  add_entry env email username d score c =
      let entry : LeaderboardEntry = record { score = score; username = username } in
      let after =
        (add_leaderboard_entry d email entry (env.put_accepted d) env.now
          c.handler.leaderboard).0 in
      (record c { handler = record c.handler { leaderboard = after } }, ok tt)

  -- `login_tokens.create_token(…)`, the token sent to the player and kept in the session.
  unfoldable pub grant : Env → Text → Text → Session StreamStatus
  grant env email username c =
      let id : LoginTokenData = record { username = username; email = email } in
      let (granter, login_token) =
        create_token B id env.random_token env.now c.handler.login_tokens in
      let c' = record c { handler = record c.handler { login_tokens = granter } } in
      let sent = send (say login_token.token) c' in
      continue sent.0 sent.1 (λ _ c''.
        (record c'' { session = record { login_token = some login_token } }, ok open_status))

  -- The loop that waits for a profile whose name can be taken; `none` where the database fails.
  -- The list is the stream's inbox.
  unfoldable pub choose_profile : Env → List Arrival → Session (Option UserProfile)
  choose_profile env [] c = (c, err awaiting)
  choose_profile env (arrival ∷ rest) c =
      let c' = record c { stream = record c.stream { inbox = rest } } in
      let again = λ (msg : Text).
        let sent = send (say msg) c' in continue sent.0 sent.1 (λ _. choose_profile env rest) in
      elim (reading json.as_profile arrival) [
        | panic ↦ (c', panic)
        | err e ↦ (c', err e)
        | ok p ↦
            if env.is_inappropriate p.username
            then again (bytes "Inappropriate username")
            else elim (env.is_username_taken p.username) [
              | none ↦ (c', ok none)
              | some taken ↦
                  if taken then again (bytes "Username already used") else (c', ok (some p))
            ]
      ]

  -- `db.create_user_profile`.
  unfoldable pub create_profile : Env → Text → UserProfile → Session Bool
  create_profile env email p c =
      if env.create_accepted
      then (
        record c {
          handler = record c.handler {
            created =
                c.handler.created
                ++ record {
                  created_email = email;
                  created_username = p.username;
                  created_wins = p.tournament_wins;
                }
                  ∷ [];
          };
        },
        ok true,
      )
      else (c, ok false)

  -- The rest of a sign-up; the score that goes to the expert leaderboard is the easy one.
  unfoldable pub complete : Env → Text → UserProfile → Bool → Session StreamStatus
  complete env email p false = finish (bytes "Internal Error") closed_status
  complete env email p true = do
    add_entry env email p.username easy p.easy_highscore
    add_entry env email p.username normal p.normal_highscore
    add_entry env email p.username expert p.easy_highscore
    send (say (bytes "Success"))
    grant env email p.username

  unfoldable pub register : Env → Text → Option UserProfile → Session StreamStatus
  register env email none = finish (bytes "Internal Error") closed_status
  register env email (some p) = do
    accepted ← create_profile env email p
    complete env email p accepted

  unfoldable pub sign_up : Env → Text → Session StreamStatus
  sign_up env email = do
    send (say (bytes "Sign Up"))
    chosen ← (λ c. choose_profile env c.stream.inbox c)
    register env email chosen

  -- `db.get_user_profile_by_email(&email)` and its three arms.
  unfoldable pub open_account : Env → Text → Session StreamStatus
  open_account env email = elim (env.get_profile email) [
    | found p ↦ do send (profile p); grant env email p.username
    | missing ↦ sign_up env email
    | failed ↦ finish (bytes "Internal Error") closed_status
  ]

  -- `self.connections.insert(email.clone())`.
  unfoldable pub connect : Text → Session (Unit {0})
  connect email c = (
    record c {
      handler = record c.handler { connections = C.insert c.handler.connections email tt };
    },
    ok tt,
  )

  unfoldable pub admit : Env → Text → Session StreamStatus
  admit env email c =
      if connected C B email c.handler
      then finish (bytes "Already Connected") open_status c
      else (do connect email; open_account env email) c

  -- `stream.recv_message::<String>()`.
  unfoldable pub recv_string : Session Text
  recv_string c = elim c.stream.inbox [
    | [] ↦ (c, err awaiting)
    | arrival ∷ rest ↦
        (record c { stream = record c.stream { inbox = rest } }, reading json.as_string arrival)
  ]

  unfoldable pub authenticated : Env → AuthEvent → Session StreamStatus
  authenticated env interrupted = do recv_string; finish (bytes "Login Cancelled") open_status
  authenticated env (finished none) = finish (bytes "Auth Failed") open_status
  authenticated env (finished (some none)) = finish (bytes "Auth Failed") open_status
  authenticated env (finished (some (some email))) = admit env email

  unfoldable pub login_session : Env → Session StreamStatus
  login_session env = do send (say env.auth_url); authenticated env env.auth

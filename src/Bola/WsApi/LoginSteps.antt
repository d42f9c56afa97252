-- ===== src/Bola/WsApi/LoginSteps.antt =====
-- The actions of `login` as sequences of steps of the state.
use mangle_apis.Base.{
  ℕ, ◌≡◌, refl, Bool, true, false, Option, none, some, List, [], ◌∷◌, ◌++◌, Bool-cases,
  Option-cases, inl, inr,
}
use mangle_apis.Base.Map.{MapApi}
use mangle_apis.Base.Text.{Text, bytes}
use mangle_apis.Base.Outcome.{Outcome, ok, err, Outcome-cases}
use mangle_apis.Bola.Leaderboard.{Difficulty, easy, normal, expert}
use mangle_apis.Core.Token.{TokenEntry, create_token}
use mangle_apis.Core.Token.BiMap.{BiMapApi}
use mangle_apis.Bola.WsApi.{
  LoginTokenData, UserProfile, Reply, say, profile, Json, AuthEvent, finished, interrupted,
  ProfileAnswer, found, missing, failed, Env, Ctx, connected, StreamStatus, open_status,
  closed_status, Stop, awaiting, Arrival, reading, Act, continue, ◌>>◌, pure,
}
use mangle_apis.Bola.WsApi.Login.{
  send, finish, add_entry, grant, choose_profile, create_profile, complete, register, sign_up,
  open_account, connect, admit, recv_string, authenticated, login_session,
}
use mangle_apis.Bola.WsApi.Steps.{
  sent, received, scored, token_made, signed_in, profile_made, joined, Reach, here, one, join,
  Moves, continue-Moves, then-Moves, nat-cases, pure-Moves,
}

module _ (C : MapApi Text (Unit {0}))
    (B : BiMapApi Text LoginTokenData (TokenEntry LoginTokenData) (λ e. e.identifier)) where
  pub send-Moves : (json : Json) (r : Reply) → Moves C B (send C B json r)
  unfolding send
  send-Moves json r c = elim (nat-cases C B c.stream.sends_left) [
    | inl p ↦ rw p here
    | inr (m, p) ↦ rw p (one C B (sent r m))
  ]

  pub finish-Moves :
      (json : Json) (msg : Text) (s : StreamStatus) → Moves C B (finish C B json msg s)
  unfolding finish
  finish-Moves json msg s =
      then-Moves C B (send C B json (say msg)) (λ _. pure s) (send-Moves json (say msg))
        (λ _. pure-Moves C B s)

  pub add_entry-Moves :
      (json : Json) (env : Env) (email username : Text) (d : Difficulty) (score : ℕ)
      → Moves C B (add_entry C B json env email username d score)
  unfolding add_entry
  add_entry-Moves json env email username d score c =
      one C B (
        scored d email (record { score = score; username = username }) (env.put_accepted d) env.now)

  pub grant-Moves :
      (json : Json) (env : Env) (email username : Text)
      → Moves C B (grant C B json env email username)
  unfolding grant
  grant-Moves json env email username c =
      let id : LoginTokenData = record { username = username; email = email } in
      let made = create_token B id env.random_token env.now c.handler.login_tokens in
      let c' : Ctx C B = record c { handler = record c.handler { login_tokens = made.0 } } in
      let sent = send C B json (say made.1.token) c' in
      join C B (one C B (token_made id env.random_token env.now)) (
        join C B (send-Moves json (say made.1.token) c') (
          continue-Moves C B sent.0 sent.1
            (λ _ c''.
              (record c'' { session = record { login_token = some made.1 } }, ok open_status))
            (λ _ c''. one C B (signed_in made.1))))

  pub connect-Moves :
      (json : Json) (email : Text) (c : Ctx C B)
      → connected C B email c.handler ≡ false
      → Reach C B c (connect C B json email c).0
  unfolding connect
  connect-Moves json email c new = one C B (joined email new)

  pub create_profile-Moves :
      (json : Json) (env : Env) (email : Text) (p : UserProfile)
      → Moves C B (create_profile C B json env email p)
  unfolding create_profile
  create_profile-Moves json env email p c = elim (Bool-cases env.create_accepted) [
    | inl accepted ↦ rw accepted (
        one C B (
          profile_made (record {
            created_email = email;
            created_username = p.username;
            created_wins = p.tournament_wins;
          })))
    | inr refused ↦ rw refused here
  ]

  -- A message, and then what starts from an unchanged inbox.
  retry-Moves :
      {X : Type 0} (json : Json) (frames : List Arrival) (f : Act (Ctx C B) X)
      → ((d : Ctx C B) → d.stream.inbox ≡ frames → Reach C B d (f d).0)
      → (msg : Text) (d : Ctx C B) → d.stream.inbox ≡ frames
      → Reach C B d ((send C B json (say msg) >> f) d).0
  unfolding send
  retry-Moves json frames f go msg d e = elim (nat-cases C B d.stream.sends_left) [
    | inl p ↦ rw p here
    | inr (m, p) ↦ rw p (
        join C B (one C B (sent (say msg) m)) (
          go
            (record d {
              stream = record d.stream { outbox = d.stream.outbox ++ say msg ∷ []; sends_left = m };
            })
            e))
  ]

  pub choose_profile-Moves :
      (json : Json) (env : Env) (frames : List Arrival) (c : Ctx C B)
      → c.stream.inbox ≡ frames
      → Reach C B c (choose_profile C B json env frames c).0
  unfolding choose_profile
  choose_profile-Moves json env [] c e = here
  choose_profile-Moves json env (arrival ∷ frames) c e =
      let c' : Ctx C B = record c { stream = record c.stream { inbox = frames } } in
      let step : Reach C B c c' = one C B (received arrival frames e) in
      let retry : (msg : Text)
          → Reach C B c
              (continue (send C B json (say msg) c').0 (send C B json (say msg) c').1
                (λ _. choose_profile C B json env frames)).0 =
        λ msg. join C B step (
          retry-Moves json frames (choose_profile C B json env frames)
            (choose_profile-Moves json env frames) msg c' refl) in
      elim (Outcome-cases (reading json.as_profile arrival)) [
        | inr (inr p) ↦ rw (p, choose_profile) step
        | inr (inl (e, p)) ↦ rw (p, choose_profile) step
        | inl (q, p) ↦
            rw (p, choose_profile)
              (elim (Bool-cases (env.is_inappropriate q.username)) [
                | inl bad ↦ rw bad (retry (bytes "Inappropriate username"))
                | inr good ↦ rw good (elim (Option-cases (env.is_username_taken q.username)) [
                  | inl broken ↦ rw broken step
                  | inr (taken, t) ↦ rw t (elim (Bool-cases taken) [
                    | inl used ↦ rw used (retry (bytes "Username already used"))
                    | inr free ↦ rw free step
                  ])
                ])
              ])
      ]

  pub complete-Moves :
      (json : Json) (env : Env) (email : Text) (p : UserProfile) (accepted : Bool)
      → Moves C B (complete C B json env email p accepted)
  unfolding complete
  complete-Moves json env email p false = finish-Moves json (bytes "Internal Error") closed_status
  complete-Moves json env email p true =
      then-Moves C B (add_entry C B json env email p.username easy p.easy_highscore) _
        (add_entry-Moves json env email p.username easy p.easy_highscore)
        (λ _.
          then-Moves C B (add_entry C B json env email p.username normal p.normal_highscore) _
            (add_entry-Moves json env email p.username normal p.normal_highscore)
            (λ _.
              then-Moves C B (add_entry C B json env email p.username expert p.easy_highscore) _
                (add_entry-Moves json env email p.username expert p.easy_highscore)
                (λ _.
                  then-Moves C B (send C B json (say (bytes "Success"))) _
                    (send-Moves json (say (bytes "Success")))
                    (λ _. grant-Moves json env email p.username))))

  pub register-Moves :
      (json : Json) (env : Env) (email : Text) (p : Option UserProfile)
      → Moves C B (register C B json env email p)
  unfolding register
  register-Moves json env email none = finish-Moves json (bytes "Internal Error") closed_status
  register-Moves json env email (some p) =
      then-Moves C B (create_profile C B json env email p) _ (create_profile-Moves json env email p)
        (complete-Moves json env email p)

  pub sign_up-Moves :
      (json : Json) (env : Env) (email : Text) → Moves C B (sign_up C B json env email)
  unfolding sign_up
  sign_up-Moves json env email =
      then-Moves C B (send C B json (say (bytes "Sign Up"))) _
        (send-Moves json (say (bytes "Sign Up")))
        (λ _.
          then-Moves C B (λ c. choose_profile C B json env c.stream.inbox c) _
            (λ c. choose_profile-Moves json env c.stream.inbox c refl)
            (register-Moves json env email))

  pub open_account-Moves :
      (json : Json) (env : Env) (email : Text) → Moves C B (open_account C B json env email)
  unfolding open_account
  open_account-Moves json env email c = go (env.get_profile email) c
    where
      go :
          (answer : ProfileAnswer)
          → Moves C B (elim answer as (λ _. Act (Ctx C B) StreamStatus) [
            | found p ↦ do send C B json (profile p); grant C B json env email p.username
            | missing ↦ sign_up C B json env email
            | failed ↦ finish C B json (bytes "Internal Error") closed_status
          ])
      go (found p) =
          then-Moves C B (send C B json (profile p)) _ (send-Moves json (profile p))
            (λ _. grant-Moves json env email p.username)
      go missing = sign_up-Moves json env email
      go failed = finish-Moves json (bytes "Internal Error") closed_status

  pub admit-Moves : (json : Json) (env : Env) (email : Text) → Moves C B (admit C B json env email)
  unfolding admit
  admit-Moves json env email c = elim (Bool-cases (connected C B email c.handler)) [
    | inl here_already ↦
        rw here_already (finish-Moves json (bytes "Already Connected") open_status c)
    | inr new ↦ rw new (
        join C B (connect-Moves json email c new) (
          continue-Moves C B (connect C B json email c).0 (connect C B json email c).1
            (λ _. open_account C B json env email) (λ _. open_account-Moves json env email)))
  ]

  pub recv_string-Moves : (json : Json) → Moves C B (recv_string C B json)
  unfolding recv_string
  recv_string-Moves json c = go c.stream.inbox refl
    where
      go :
          (inbox : List Arrival)
          → c.stream.inbox ≡ inbox
          → Reach C B c
              (elim inbox as (λ _. Ctx C B × Outcome Stop Text) [
                | [] ↦ (c, err awaiting)
                | arrival ∷ rest ↦ (
                  record c { stream = record c.stream { inbox = rest } },
                  reading json.as_string arrival,
                )
              ]).0
      go [] e = here
      go (arrival ∷ rest) e = one C B (received arrival rest e)

  pub authenticated-Moves :
      (json : Json) (env : Env) (event : AuthEvent) → Moves C B (authenticated C B json env event)
  unfolding authenticated
  authenticated-Moves json env interrupted =
      then-Moves C B (recv_string C B json) _ (recv_string-Moves json)
        (λ _. finish-Moves json (bytes "Login Cancelled") open_status)
  authenticated-Moves json env (finished none) = finish-Moves json (bytes "Auth Failed") open_status
  authenticated-Moves json env (finished (some none)) =
      finish-Moves json (bytes "Auth Failed") open_status
  authenticated-Moves json env (finished (some (some email))) = admit-Moves json env email

  pub login_session-Moves : (json : Json) (env : Env) → Moves C B (login_session C B json env)
  unfolding login_session
  login_session-Moves json env =
      then-Moves C B (send C B json (say env.auth_url)) _ (send-Moves json (say env.auth_url))
        (λ _. authenticated-Moves json env env.auth)

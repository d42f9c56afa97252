-- ===== src/Bola/WsApi/Waiting.antt =====
-- Where a session of ws_api.rs waits for a frame: only when all that has arrived is read.
use mangle_apis.Base.{
  ℕ, ◌≡◌, ◌≢◌, refl, ◌∙◌, Bool, true, false, Option, none, some, List, [], ◌∷◌, ◌++◌, Bool-cases,
  Option-cases, inl, inr,
}
use mangle_apis.Base.Map.{MapApi}
use mangle_apis.Base.Text.{Text, bytes}
use mangle_apis.Base.Outcome.{Outcome, ok, err, panic, Outcome-cases}
use mangle_apis.Bola.Leaderboard.{Difficulty, easy, normal, expert}
use mangle_apis.Core.Token.{TokenEntry, create_token}
use mangle_apis.Core.Token.BiMap.{BiMapApi}
use mangle_apis.Bola.WsApi.{
  LoginTokenData, UserProfile, Reply, say, profile, Json, AuthEvent, finished, interrupted,
  ProfileAnswer, found, missing, failed, Env, Ctx, connected, StreamStatus, open_status,
  closed_status, Stop, stream_error, awaiting, Arrival, json_text, broken, unexpected, reading, Act,
  continue, ◌>>=◌, ◌>>◌, pure,
}
use mangle_apis.Bola.WsApi.Login.{
  send, finish, add_entry, grant, choose_profile, create_profile, complete, register, sign_up,
  open_account, connect, admit, recv_string, authenticated, login_session,
}
use mangle_apis.Bola.WsApi.Steps.{nat-cases}

module _ (C : MapApi Text (Unit {0}))
    (B : BiMapApi Text LoginTokenData (TokenEntry LoginTokenData) (λ e. e.identifier))
    (json : Json) where
  -- A result that waits leaves nothing unread.
  abbrev pub Ends : {A : Type 0} → Ctx C B × Outcome Stop A → Type 0
  Ends r = r.1 ≡ err awaiting → r.0.stream.inbox ≡ []

  abbrev pub Waits : {A : Type 0} → Act (Ctx C B) A → Type 0
  Waits m = (c : Ctx C B) → Ends (m c)

  continue-Ends :
      {X Y : Type 0} (c : Ctx C B) (o : Outcome Stop X) (f : X → Act (Ctx C B) Y)
      → Ends (c, o)
      → ((x : X) → Ends (f x c))
      → Ends (continue c o f)
  continue-Ends c (ok x) f h more = more x
  continue-Ends c (err stream_error) f h more = λ e. absurd (cc)
  continue-Ends c (err awaiting) f h more = λ e. h refl
  continue-Ends c panic f h more = λ e. absurd (cc)

  then-Waits :
      {X Y : Type 0} (a : Act (Ctx C B) X) (f : X → Act (Ctx C B) Y)
      → Waits a
      → ((x : X) → Waits (f x))
      → Waits (a >>= f)
  then-Waits a f h more c = continue-Ends (a c).0 (a c).1 f (h c) (λ x. more x (a c).0)

  reading_never :
      {A : Type 0} (parse : Text → Option A) (a : Arrival) → reading parse a ≢ err awaiting
  reading_never parse (json_text s) = elim (Option-cases (parse s)) [
    | inl p ↦ λ e. cc (e, p)
    | inr (x, p) ↦ λ e. cc (e, p)
  ]
  reading_never parse broken = λ e. cc
  reading_never parse unexpected = λ e. cc

  send-Waits : (r : Reply) → Waits (send C B json r)
  unfolding send
  send-Waits r c = elim (nat-cases C B c.stream.sends_left) [
    | inl p ↦ rw p (λ e. absurd (cc))
    | inr (m, p) ↦ rw p (λ e. absurd (cc))
  ]

  pure-Waits : {X : Type 0} (x : X) → Waits (pure x)
  pure-Waits x c e = absurd (cc)

  finish-Waits : (msg : Text) (s : StreamStatus) → Waits (finish C B json msg s)
  unfolding finish
  finish-Waits msg s =
      then-Waits (send C B json (say msg)) (λ _. pure s) (send-Waits (say msg)) (λ _. pure-Waits s)

  add_entry-Waits :
      (env : Env) (email username : Text) (d : Difficulty) (score : ℕ)
      → Waits (add_entry C B json env email username d score)
  unfolding add_entry
  add_entry-Waits env email username d score c e = absurd (cc)

  grant-Waits : (env : Env) (email username : Text) → Waits (grant C B json env email username)
  unfolding grant
  grant-Waits env email username c =
      let id : LoginTokenData = record { username = username; email = email } in
      let made = create_token B id env.random_token env.now c.handler.login_tokens in
      let c' : Ctx C B = record c { handler = record c.handler { login_tokens = made.0 } } in
      let sent = send C B json (say made.1.token) c' in
      continue-Ends sent.0 sent.1
        (λ _ c''. (record c'' { session = record { login_token = some made.1 } }, ok open_status))
        (send-Waits (say made.1.token) c') (λ _ e. absurd (cc))

  -- A message, and then what starts from an unchanged inbox.
  retry-Ends :
      {X : Type 0} (frames : List Arrival) (f : Act (Ctx C B) X)
      → ((d : Ctx C B) → d.stream.inbox ≡ frames → Ends (f d))
      → (msg : Text) (d : Ctx C B) → d.stream.inbox ≡ frames
      → Ends ((send C B json (say msg) >> f) d)
  unfolding send
  retry-Ends frames f go msg d e = elim (nat-cases C B d.stream.sends_left) [
    | inl p ↦ rw p (λ w. absurd (cc))
    | inr (m, p) ↦ rw p (
        go
          (record d {
            stream = record d.stream { outbox = d.stream.outbox ++ say msg ∷ []; sends_left = m };
          })
          e)
  ]

  choose_profile-Ends :
      (env : Env) (frames : List Arrival) (c : Ctx C B)
      → c.stream.inbox ≡ frames
      → Ends (choose_profile C B json env frames c)
  unfolding choose_profile
  choose_profile-Ends env [] c e = λ w. e
  choose_profile-Ends env (arrival ∷ rest) c e =
      let c' : Ctx C B = record c { stream = record c.stream { inbox = rest } } in
      let retry : (msg : Text)
          → Ends (
              continue (send C B json (say msg) c').0 (send C B json (say msg) c').1
                (λ _. choose_profile C B json env rest)) =
        λ msg.
          retry-Ends rest (choose_profile C B json env rest) (choose_profile-Ends env rest) msg c'
            refl in
      elim (Outcome-cases (reading json.as_profile arrival)) [
        | inr (inr p) ↦ rw (p, choose_profile) (λ w. absurd (cc))
        | inr (inl (why, p)) ↦
            rw (p, choose_profile) (λ w. absurd (reading_never json.as_profile arrival (p ∙ cc)))
        | inl (q, p) ↦
            rw (p, choose_profile)
              (elim (Bool-cases (env.is_inappropriate q.username)) [
                | inl bad ↦ rw bad (retry (bytes "Inappropriate username"))
                | inr good ↦ rw good (elim (Option-cases (env.is_username_taken q.username)) [
                  | inl down ↦ rw down (λ w. absurd (cc))
                  | inr (taken, t) ↦ rw t (elim (Bool-cases taken) [
                    | inl used ↦ rw used (retry (bytes "Username already used"))
                    | inr free ↦ rw free (λ w. absurd (cc))
                  ])
                ])
              ])
      ]

  create_profile-Waits :
      (env : Env) (email : Text) (p : UserProfile) → Waits (create_profile C B json env email p)
  unfolding create_profile
  create_profile-Waits env email p c = elim (Bool-cases env.create_accepted) [
    | inl accepted ↦ rw accepted (λ w. absurd (cc))
    | inr refused ↦ rw refused (λ w. absurd (cc))
  ]

  complete-Waits :
      (env : Env) (email : Text) (p : UserProfile) (accepted : Bool)
      → Waits (complete C B json env email p accepted)
  unfolding complete
  complete-Waits env email p false = finish-Waits (bytes "Internal Error") closed_status
  complete-Waits env email p true =
      then-Waits _ _ (add_entry-Waits env email p.username easy p.easy_highscore) (λ _.
        then-Waits _ _ (add_entry-Waits env email p.username normal p.normal_highscore) (λ _.
          then-Waits _ _ (add_entry-Waits env email p.username expert p.easy_highscore) (λ _.
            then-Waits _ _ (send-Waits (say (bytes "Success")))
              (λ _. grant-Waits env email p.username))))

  register-Waits :
      (env : Env) (email : Text) (p : Option UserProfile) → Waits (register C B json env email p)
  unfolding register
  register-Waits env email none = finish-Waits (bytes "Internal Error") closed_status
  register-Waits env email (some p) =
      then-Waits (create_profile C B json env email p) _ (create_profile-Waits env email p)
        (complete-Waits env email p)

  sign_up-Waits : (env : Env) (email : Text) → Waits (sign_up C B json env email)
  unfolding sign_up
  sign_up-Waits env email =
      then-Waits (send C B json (say (bytes "Sign Up"))) _ (send-Waits (say (bytes "Sign Up")))
        (λ _.
          then-Waits (λ c. choose_profile C B json env c.stream.inbox c) _
            (λ c. choose_profile-Ends env c.stream.inbox c refl) (register-Waits env email))

  open_account-Waits : (env : Env) (email : Text) → Waits (open_account C B json env email)
  unfolding open_account
  open_account-Waits env email c = go (env.get_profile email) c
    where
      go :
          (answer : ProfileAnswer)
          → Waits (elim answer as (λ _. Act (Ctx C B) StreamStatus) [
            | found p ↦ do send C B json (profile p); grant C B json env email p.username
            | missing ↦ sign_up C B json env email
            | failed ↦ finish C B json (bytes "Internal Error") closed_status
          ])
      go (found p) =
          then-Waits (send C B json (profile p)) _ (send-Waits (profile p))
            (λ _. grant-Waits env email p.username)
      go missing = sign_up-Waits env email
      go failed = finish-Waits (bytes "Internal Error") closed_status

  connect-Waits : (email : Text) → Waits (connect C B json email)
  unfolding connect
  connect-Waits email c w = absurd (cc)

  admit-Waits : (env : Env) (email : Text) → Waits (admit C B json env email)
  unfolding admit
  admit-Waits env email c = elim (Bool-cases (connected C B email c.handler)) [
    | inl here_already ↦ rw here_already (finish-Waits (bytes "Already Connected") open_status c)
    | inr new ↦ rw new (
        then-Waits (connect C B json email) (λ _. open_account C B json env email)
          (connect-Waits email) (λ _. open_account-Waits env email) c)
  ]

  recv_string-Waits : Waits (recv_string C B json)
  unfolding recv_string
  recv_string-Waits c = go c.stream.inbox refl
    where
      go :
          (inbox : List Arrival)
          → c.stream.inbox ≡ inbox
          → Ends (elim inbox as (λ _. Ctx C B × Outcome Stop Text) [
            | [] ↦ (c, err awaiting)
            | arrival ∷ rest ↦ (
              record c { stream = record c.stream { inbox = rest } },
              reading json.as_string arrival,
            )
          ])
      go [] e = λ w. e
      go (arrival ∷ rest) e = λ w. absurd (reading_never json.as_string arrival w)

  authenticated-Waits : (env : Env) (event : AuthEvent) → Waits (authenticated C B json env event)
  unfolding authenticated
  authenticated-Waits env interrupted =
      then-Waits (recv_string C B json) _ recv_string-Waits
        (λ _. finish-Waits (bytes "Login Cancelled") open_status)
  authenticated-Waits env (finished none) = finish-Waits (bytes "Auth Failed") open_status
  authenticated-Waits env (finished (some none)) = finish-Waits (bytes "Auth Failed") open_status
  authenticated-Waits env (finished (some (some email))) = admit-Waits env email

  pub login_session-Waits : (env : Env) → Waits (login_session C B json env)
  unfolding login_session
  login_session-Waits env =
      then-Waits (send C B json (say env.auth_url)) _ (send-Waits (say env.auth_url))
        (λ _. authenticated-Waits env env.auth)

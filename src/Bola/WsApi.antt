-- ===== src/Bola/WsApi.antt =====
-- bola-api/src/ws_api.rs: the session of a player over a websocket. State is passed explicitly: the
-- server's shared state, the session's, and the stream with the frames still to come. What the
-- outside decides during a session (sign-in, database, word filter, clock, random bytes) is given by
-- an environment for each round of the loop.
pub mod Login
pub mod Handle
pub mod Request
pub mod Steps
pub mod LoginSteps
pub mod Rounds
pub mod Connections
pub mod Safety
pub mod Waiting
pub mod Ending
mod Tests
use mangle_apis.Base.{
  ℕ, zero, suc, ◌+◌, Bool, true, false, Option, none, some, List, [], ◌∷◌, ◌++◌, if◌then◌else◌,
  is_some,
}
use mangle_apis.Base.Map.{MapApi}
use mangle_apis.Base.Text.{Text, bytes, text_eq}
use mangle_apis.Base.Outcome.{Outcome, ok, err, panic}
use mangle_apis.Bola.Leaderboard.{Difficulty, easy, normal, expert, Leaderboard}
use mangle_apis.Core.Token.{TokenEntry, VerifiedToken, TokenGranter}
use mangle_apis.Core.Token.BiMap.{BiMapApi}

-- `LoginTokenData` of main.rs.
pub record LoginTokenData : Type 0 where
  pub username : Text
  pub email : Text

-- `UserProfile` of db.rs.
pub record UserProfile : Type 0 where
  pub username : Text
  pub easy_highscore : ℕ
  pub normal_highscore : ℕ
  pub expert_highscore : ℕ
  pub tournament_wins : List ℕ

-- `WSAPIMessage`.
pub data WsApiMessage : Type 0 where
  score_update_request : Text → ℕ → WsApiMessage
  logout get_leaderboard login get_tournament win_tournament : WsApiMessage
  host_session : ℕ → WsApiMessage
  start_join_session : ℕ → WsApiMessage
  join_session_sdp_offers : List Text → WsApiMessage
  join_session_ice : ℕ → Text → WsApiMessage
  sdp_answer : Text → Text → WsApiMessage

-- What the server sends.
pub data Reply : Type 0 where
  say : Text → Reply
  profile : UserProfile → Reply

-- What a call of `recv_message` finds once something is there: a JSON text, what makes it an error (a close
-- frame, a binary frame, the end of the connection, a ping of its own that cannot be sent), or a frame at
-- which it panics (a ping).
pub data Arrival : Type 0 where
  json_text : Text → Arrival
  broken unexpected : Arrival

pub record Stream : Type 0 where
  -- what will still arrive; after that, nothing does, and the connection stays open
  pub inbox : List Arrival
  pub outbox : List Reply
  -- how many sends succeed before the connection is found closed
  pub sends_left : ℕ

-- `serde_json` on the three types that the server receives.
pub record Json : Type 0 where
  pub as_message : Text → Option WsApiMessage
  pub as_string : Text → Option Text
  pub as_profile : Text → Option UserProfile

-- Which branch of the `select!` in `login` ends first.
pub data AuthEvent : Type 0 where
  -- the sign-in ends, with the user's email if there is one, or not at all
  finished : Option (Option Text) → AuthEvent
  -- it does not end before the next frame of the peer
  interrupted : AuthEvent

-- `get_user_profile_by_email`.
pub data ProfileAnswer : Type 0 where
  found : UserProfile → ProfileAnswer
  missing : ProfileAnswer
  failed : ProfileAnswer

pub record Env : Type 0 where
  pub auth_url : Text
  pub auth : AuthEvent
  pub get_profile : Text → ProfileAnswer
  pub is_inappropriate : Text → Bool
  -- `none` is an error of the database
  pub is_username_taken : Text → Option Bool
  pub create_accepted : Bool
  pub put_accepted : Difficulty → Bool
  pub random_token : Text
  pub now : ℕ

-- A `create_user_profile` request that the database has accepted.
pub record CreatedProfile : Type 0 where
  pub created_email : Text
  pub created_username : Text
  pub created_wins : List ℕ

module _ (C : MapApi Text (Unit {0}))
    (B : BiMapApi Text LoginTokenData (TokenEntry LoginTokenData) (λ e. e.identifier)) where
  -- `WsApiHandler`, with what it refers to.
  pub record WsApiHandler : Type 0 where
    pub connections : C.Map
    pub leaderboard : Leaderboard
    pub login_tokens : TokenGranter B
    pub created : List CreatedProfile

  -- `SessionState`; `last_leaderboard_retrieval` is never read.
  pub record SessionState : Type 0 where
    pub login_token : Option (VerifiedToken LoginTokenData)

  pub record Ctx : Type 0 where
    pub handler : WsApiHandler
    pub session : SessionState
    pub stream : Stream

  abbrev pub connected : Text → WsApiHandler → Bool
  connected email h = is_some (C.get h.connections email)

pub data StreamStatus : Type 0 where
  open_status closed_status : StreamStatus

-- Why a step does not go on: the error of a stream that has been closed or that sent what cannot be read,
-- or that it waits for a frame, on a connection that stays open and silent.
pub data Stop : Type 0 where
  stream_error awaiting : Stop

-- What `recv_message` makes of an arrival, by `serde_json` on the type that is expected.
abbrev pub reading : {A : Type 0} → (Text → Option A) → Arrival → Outcome Stop A
reading parse (json_text s) = elim (parse s) [ none ↦ err stream_error | some a ↦ ok a ]
reading parse broken = err stream_error
reading parse unexpected = panic

-- A step that may stop or panic, with the state that it leaves.
abbrev pub Act : Type 0 → Type 0 → Type 0
Act S A = S → S × Outcome Stop A

abbrev pub continue : {S A B : Type 0} → S → Outcome Stop A → (A → Act S B) → S × Outcome Stop B
continue s (ok a) f = f a s
continue s (err e) f = (s, err e)
continue s panic f = (s, panic)

infixl 5 ◌>>=◌ ◌>>◌
abbrev pub ◌>>=◌ : {S A B : Type 0} → Act S A → (A → Act S B) → Act S B
◌>>=◌ m f s = continue (m s).0 (m s).1 f

abbrev pub ◌>>◌ : {S A B : Type 0} → Act S A → Act S B → Act S B
m >> k = m >>= λ _. k

abbrev pub pure : {S A : Type 0} → A → Act S A
pure a s = (s, ok a)

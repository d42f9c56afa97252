-- ===== src/Bola/WsApi/Tests.antt =====
-- Sessions with a server on which the player `a@x` is connected.
use mathlib.Core.List.{Memᴰ}
use mangle_apis.Base.{
  arith, ◌≡◌, ◌↔◌, refl, Bool, true, false, ◌&&◌, none, some, [], ◌∷◌, if◌then◌else◌, ◌⊎◌, All,
}
use mangle_apis.Base.Map.{MapApi, assoc_map, text_map}
use mangle_apis.Base.Text.{Text, bytes, text_eq, text_eq_iff}
use mangle_apis.Base.Outcome.{ok, err}
use mangle_apis.Core.Token.{TokenEntry, VerifiedToken, new}
use mangle_apis.Core.Token.BiMap.{BiMapApi, function_bimap}
use mangle_apis.Bola.WsApi.{
  LoginTokenData, login, get_leaderboard, logout, Json, Env, finished, missing, WsApiHandler, Ctx,
  json_text, unexpected, connected, say,
}
use mangle_apis.Bola.WsApi.Login.{send}
use mangle_apis.Bola.WsApi.Handle.{
  returned, crashed, listening, handle, rounds, round, dispatch, logged_out_round, reply,
}
use mangle_apis.Bola.WsApi.Request.{conflict, take_session}
use mangle_apis.Bola.WsApi.Connections.{stays_connected}
use mangle_apis.Bola.WsApi.Ending.{handle_ends}
use mangle_apis.Bola.WsApi.Safety.{NoLogin, guests_change_nothing}

abbrev same_user : LoginTokenData → LoginTokenData → Bool
same_user a b = text_eq a.username b.username && text_eq a.email b.email

same_user_iff : (a b : LoginTokenData) → (same_user a b ≡ true) ↔ (a ≡ b)
same_user_iff a b = ground (arith, text_eq_iff a.username b.username, text_eq_iff a.email b.email)

abbrev Emails : MapApi Text (Unit {0})
Emails = text_map (Unit {0})

abbrev Tokens : BiMapApi Text LoginTokenData (TokenEntry LoginTokenData) (λ e. e.identifier)
Tokens = function_bimap (λ e. e.identifier) text_eq same_user text_eq_iff same_user_iff

abbrev json : Json
json = record {
  as_message = λ text.
      if text_eq text (bytes "login")
      then some login
      else if text_eq text (bytes "lb")
      then some get_leaderboard
      else some logout;
  as_string = λ text. some text;
  as_profile = λ text. none;
}

abbrev env : Env
env = record {
  auth_url = bytes "https://auth";
  auth = finished none;
  get_profile = λ email. missing;
  is_inappropriate = λ name. false;
  is_username_taken = λ name. some false;
  create_accepted = true;
  put_accepted = λ d. true;
  random_token = bytes "tttt";
  now = 5;
}

abbrev server : WsApiHandler Emails Tokens
server = record {
  connections = Emails.insert Emails.empty (bytes "a@x") tt;
  leaderboard = record {
    easy_leaderboard = [];
    normal_leaderboard = [];
    expert_leaderboard = [];
    last_update = 0;
    leaderboard_span = 10;
    updates = [];
    writes = [];
    sent = [];
  };
  login_tokens = new Tokens 60;
  created = [];
}

abbrev guest : Ctx Emails Tokens
guest = record {
  handler = server;
  session = record { login_token = none };
  stream = record {
    inbox = json_text (bytes "lb") ∷ json_text (bytes "??") ∷ [];
    outbox = [];
    sends_left = 9;
  };
}

abbrev anna : VerifiedToken LoginTokenData
anna = record {
  token = bytes "aaaa";
  identifier = record { username = bytes "anna"; email = bytes "a@x" };
}

anna_connected : connected Emails Tokens (bytes "a@x") server ≡ true
unfolding text_map assoc_map text_eq
anna_connected = refl

handle_ends_example :
    let out = handle Emails Tokens json (λ i. env) guest in
    (out.1 ≡ returned) ⊎ (out.1 ≡ crashed) ⊎ ((out.1 ≡ listening) × (out.0.stream.inbox ≡ []))
handle_ends_example = handle_ends Emails Tokens json (λ i. env) guest

stays_connected_example :
    (take_session Emails Tokens (handle Emails Tokens json (λ i. env) guest).0.handler (ok anna)).1
    ≡ err conflict
stays_connected_example = stays_connected Emails Tokens json (λ i. env) guest anna anna_connected

never_login : All (NoLogin Emails Tokens json) guest.stream.inbox
unfolding text_eq
never_login = (λ e. cc, (λ e. cc, tt))

guests_change_nothing_example :
    let out = handle Emails Tokens json (λ i. env) guest in
    (out.0.handler ≡ server)
    × ((out.1 ≡ returned)
        ⊎ (out.1 ≡ listening)
        ⊎ ((out.1 ≡ crashed) × Memᴰ unexpected guest.stream.inbox))
guests_change_nothing_example =
    guests_change_nothing Emails Tokens json (λ i. env) guest never_login refl

-- A ping of the peer ends the session in a panic.
ping_crashes :
    (handle Emails Tokens json
      (λ i. env)
      (record guest {
        stream = record {
          inbox = json_text (bytes "lb") ∷ unexpected ∷ [];
          outbox = [];
          sends_left = 9;
        };
      })).1
    ≡ crashed
unfolding handle rounds round dispatch logged_out_round reply send text_eq
ping_crashes = refl

-- The request for the leaderboard is passed over, and the other is answered.
guest_answered :
    (handle Emails Tokens json (λ i. env) guest).0.stream.outbox
    ≡ say (bytes "Must be logged in") ∷ []
unfolding handle rounds round dispatch logged_out_round reply send text_eq
guest_answered = refl

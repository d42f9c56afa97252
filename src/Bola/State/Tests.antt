-- ===== src/Bola/State/Tests.antt =====
-- A start with files that hold their own names, and one player in the database.
use mangle_apis.Base.{
  ◌≤◌, ◌≡◌, ◌↔◌, refl, Bool, true, ◌&&◌, Option, none, some, List, [], ◌∷◌, ◌++◌, map, All, arith,
}
use mangle_apis.Base.Text.{Text, bytes, text_eq, text_eq_iff}
use mangle_apis.Base.Map.{MapApi, text_map}
use mangle_apis.Base.Outcome.{ok}
use mangle_apis.Core.Openid.{token, ClientApi, PendingSession, verify_auth}
use mangle_apis.Core.Token.{TokenEntry, verify_token}
use mangle_apis.Core.Token.BiMap.{BiMapApi, function_bimap}
use mangle_apis.Bola.WsApi.{LoginTokenData}
use mangle_apis.Bola.Leaderboard.{Difficulty, easy, normal, expert}
use mangle_apis.Bola.Db.{AttributeValue}
use mangle_apis.Bola.Pull.Laws.{Row, written}
use mangle_apis.Bola.State.{
  StateConfig, read_config, invalid_path, ClientSecret, GlobalState, new_global,
}
use mangle_apis.Bola.State.Laws.{IsReadable, new_global_lem}

abbrev users_eq : LoginTokenData → LoginTokenData → Bool
users_eq a b = text_eq a.email b.email && text_eq a.username b.username

users_eq_iff : (a b : LoginTokenData) → (users_eq a b ≡ true) ↔ (a ≡ b)
users_eq_iff a b = ground (arith, text_eq_iff a.email b.email, text_eq_iff a.username b.username)

abbrev Granted : BiMapApi Text LoginTokenData (TokenEntry LoginTokenData) (λ e. e.identifier)
Granted = function_bimap (λ e. e.identifier) text_eq users_eq text_eq_iff users_eq_iff

abbrev Items : MapApi Text AttributeValue
Items = text_map AttributeValue

abbrev Pending : MapApi Text (PendingSession Text)
Pending = text_map (PendingSession Text)

abbrev read : Text → Option Text
read path = some path

abbrev from_str : Text → Option ClientSecret
from_str text = some (record { client_id = text; client_secret = text })

-- A client is known by its redirect.
abbrev discover : ClientSecret → Text → Text → Option Text
discover secret redirect issuer = some redirect

abbrev api : ClientApi Text Text Text
api = record {
  request_token = λ client code. token (some code);
  decode_token = λ client id_token. some id_token;
  validate_token = λ client id_token. true;
  userinfo = λ id_token. id_token;
}

abbrev config : StateConfig
config = record {
  invalid_path = bytes "invalid.html";
  internal_error_path = bytes "error.html";
  success_path = bytes "success.html";
  late_path = bytes "late.html";
  google_client_secret_path = bytes "google.json";
  oidc_redirect_base = bytes "https://bola";
  token_duration = 60;
  start_week_time = 0;
}

-- Without a path of its own, the page for internal errors is the one for invalid sign-ins.
same_page :
    (read_config (record {
      invalid_path = none;
      internal_error_path = none;
      success_path = none;
      late_path = none;
      google_client_secret_path = bytes "google.json";
      oidc_redirect_base = bytes "https://bola";
      token_duration = none;
      start_week_time = 0;
    })).internal_error_path
    ≡ bytes "invalid.html"
unfolding read_config invalid_path
same_page = refl

config-IsReadable :
    IsReadable read from_str discover Pending api Granted Items config (bytes "late.html")
config-IsReadable = record {
  internal_error = (bytes "error.html", refl);
  invalid = (bytes "invalid.html", refl);
  success = (bytes "success.html", refl);
  late_page = refl;
  client = (
    bytes "google.json",
    record { client_id = bytes "google.json"; client_secret = bytes "google.json" },
    bytes "https://bola" ++ bytes "/oidc/redirect",
    refl,
    refl,
    refl,
  );
}

abbrev cat : Row
cat = record {
  email = bytes "c@b";
  tournament_wins = [];
  entry = record { score = 12; username = bytes "cat" };
}

abbrev rows : Difficulty → List Row
rows easy = cat ∷ []
rows normal = []
rows expert = []

small : (d : Difficulty) → All (λ row. row.entry.score ≤ 65535) (rows d)
small easy = (omega arith, tt)
small normal = tt
small expert = tt

new_global_example :
    (state : GlobalState read from_str discover Pending api Granted Items) × (new_global read
        from_str discover Pending api Granted Items config true
        (λ d. ok (some (map (written Items d) (rows d))))
        9
      ≡ ok state)
    × ((code csrf_token : Text)
        → verify_auth Pending api code csrf_token state.auth_pages state.oidc_state
          ≡ (state.oidc_state, bytes "late.html"))
    × ((token : Text) → verify_token Granted token state.login_tokens ≡ (state.login_tokens, none))
    × (state.leaderboard.easy_leaderboard ≡ cat.entry ∷ [])
    × (state.leaderboard.normal_leaderboard ≡ [])
    × (state.leaderboard.expert_leaderboard ≡ [])
new_global_example =
    new_global_lem read from_str discover Pending api Granted Items config (bytes "late.html") rows
      9 config-IsReadable small

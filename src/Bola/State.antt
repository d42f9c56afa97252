-- ===== src/Bola/State.antt =====
-- bola-api/src/state.rs: the state that the handlers share, as `new_global!` makes it, with the defaults of
-- bola-api/src/config.rs and the OpenID client of mangle-api-core/src/auth/openid.rs for Google. The file
-- system, the discovery of the client, the binding of the node and the answers of the database are given.
mod Laws
mod Tests
use mangle_apis.Base.{
  ℕ, ◌*◌, Bool, true, false, Option, none, some, List, [], ◌∷◌, ◌++◌, if◌then◌else◌,
}
use mangle_apis.Base.Text.{Text, bytes}
use mangle_apis.Base.Map.{MapApi}
use mangle_apis.Base.Outcome.{Outcome, ok, err, panic, ◌>>=◌, map_err}
use mangle_apis.Core.Openid.{AuthPages, ClientApi, PendingSession, OidcState}
use mangle_apis.Core.Token.{TokenEntry, TokenGranter, new}
use mangle_apis.Core.Token.BiMap.{BiMapApi}
use mangle_apis.Bola.WsApi.{LoginTokenData}
use mangle_apis.Bola.Leaderboard.{Leaderboard, Difficulty}
use mangle_apis.Bola.Db.{AttributeValue}
use mangle_apis.Bola.Pull.{PullError, new_leaderboard}
use mangle_apis.Bola.Tournament.{Tournament}

-- The fields of `Config` that the state depends on.
pub record StateConfig : Type 0 where
  pub invalid_path : Text
  pub internal_error_path : Text
  pub success_path : Text
  pub late_path : Text
  pub google_client_secret_path : Text
  pub oidc_redirect_base : Text
  pub token_duration : ℕ
  pub start_week_time : ℕ

-- The same fields in a configuration file, which need not give those that have a default.
pub record ConfigFile : Type 0 where
  pub invalid_path : Option Text
  pub internal_error_path : Option Text
  pub success_path : Option Text
  pub late_path : Option Text
  pub google_client_secret_path : Text
  pub oidc_redirect_base : Text
  pub token_duration : Option ℕ
  pub start_week_time : ℕ

abbrev pub or_default : {A : Type 0} → Option A → A → A
or_default none a = a
or_default (some b) a = b

unfoldable pub invalid_path : Text
invalid_path = bytes "invalid.html"

unfoldable pub success_path : Text
success_path = bytes "success.html"

unfoldable pub late_path : Text
late_path = bytes "late.html"

-- 30 days, in seconds.
unfoldable pub token_duration : ℕ
token_duration = 60 * 60 * 24 * 30

-- `#[serde(default = …)]`.
unfoldable pub read_config : ConfigFile → StateConfig
read_config file = record {
  invalid_path = or_default file.invalid_path invalid_path;
  internal_error_path = or_default file.internal_error_path invalid_path;
  success_path = or_default file.success_path success_path;
  late_path = or_default file.late_path late_path;
  google_client_secret_path = file.google_client_secret_path;
  oidc_redirect_base = file.oidc_redirect_base;
  token_duration = or_default file.token_duration token_duration;
  start_week_time = file.start_week_time;
}

pub data GlobalError : Type 0 where
  reading : Text → GlobalError
  node_failed : GlobalError
  bad_secret : GlobalError
  discovery_failed : GlobalError
  pulling : PullError → GlobalError

-- The secret of a web application.
pub record ClientSecret : Type 0 where
  pub client_id : Text
  pub client_secret : Text

-- `Node::new`, which fails when its port cannot be bound.
abbrev pub bind_node : Bool → Outcome GlobalError (Unit {0})
bind_node true = ok tt
bind_node false = err node_failed

module _ (read_to_string : Text → Option Text) where
  unfoldable pub read_page : Text → Outcome GlobalError Text
  read_page path = elim (read_to_string path) [ none ↦ err (reading path) | some page ↦ ok page ]

  module _ {Client : Type 0} (from_str : Text → Option ClientSecret)
      (discover : ClientSecret → Text → Text → Option Client) where
    unfoldable pub parse_secret : Text → Outcome GlobalError ClientSecret
    parse_secret text = elim (from_str text) [ none ↦ err bad_secret | some secret ↦ ok secret ]

    -- `new_oidc_client`, with the redirect and the issuer.
    unfoldable pub new_oidc_client : ClientSecret → Text → Text → Outcome GlobalError Client
    new_oidc_client secret redirect_url issuer_url =
        elim (discover secret redirect_url issuer_url) [
          | none ↦ err discovery_failed
          | some client ↦ ok client
        ]

    unfoldable pub new_google_oidc_from_file : Text → Text → Outcome GlobalError Client
    new_google_oidc_from_file filename redirect_url =
        read_page filename >>= parse_secret >>= λ secret.
        new_oidc_client secret redirect_url (bytes "https://accounts.google.com")

    module _ {IdToken Userinfo : Type 0} (P : MapApi Text (PendingSession Client))
        (api : ClientApi Client IdToken Userinfo)
        (B : BiMapApi Text LoginTokenData (TokenEntry LoginTokenData) (λ e. e.identifier))
        (M : MapApi Text AttributeValue) where
      pub record GlobalState : Type 0 where
        pub oidc_state : OidcState P api
        pub goidc : Client
        pub auth_pages : AuthPages
        pub login_tokens : TokenGranter B
        pub leaderboard : Leaderboard
        pub tournament : Tournament

      -- `node` is whether the node binds its port, `query` are the answers to the queries for the boards.
      unfoldable pub new_global :
          StateConfig
          → Bool
          → (Difficulty → Outcome PullError (Option (List M.Map)))
          → ℕ
          → Outcome GlobalError GlobalState
      new_global config node query now = read_page config.internal_error_path >>= λ internal_error.
          read_page config.invalid_path >>= λ invalid. read_page config.success_path >>= λ success.
          read_page config.late_path >>= λ late. bind_node node >>= λ _.
          new_google_oidc_from_file config.google_client_secret_path
            (config.oidc_redirect_base ++ bytes "/oidc/redirect")
          >>= λ goidc. map_err pulling (new_leaderboard M query now 5) >>= λ leaderboard.
              ok (record {
                oidc_state = record { pending_auths = P.empty; sent = [] };
                goidc = goidc;
                auth_pages = record {
                  late = late;
                  invalid = invalid;
                  internal_error = internal_error;
                  success = success;
                };
                login_tokens = new B config.token_duration;
                leaderboard = leaderboard;
                tournament = record { start_time_duration = config.start_week_time };
              })

-- ===== src/Bola/State/Laws.antt =====
-- A server that has started: what its first requests find.
use mangle_apis.Base.{ℕ, ◌≤◌, ◌≡◌, refl, true, Option, none, some, List, [], ◌++◌, map, All}
use mangle_apis.Base.Text.{Text, bytes}
use mangle_apis.Base.Map.{MapApi}
use mangle_apis.Base.Outcome.{ok}
use mangle_apis.Core.Openid.{ClientApi, PendingSession, verify_auth}
use mangle_apis.Core.Token.{TokenEntry, new, verify_token}
use mangle_apis.Core.Token.BiMap.{BiMapApi}
use mangle_apis.Bola.WsApi.{LoginTokenData}
use mangle_apis.Bola.Leaderboard.{Difficulty, easy, normal, expert}
use mangle_apis.Bola.Db.{AttributeValue}
use mangle_apis.Bola.Pull.Laws.{Row, written, new_leaderboard-written}
use mangle_apis.Bola.State.{
  StateConfig, ClientSecret, read_page, parse_secret, new_oidc_client, new_google_oidc_from_file,
  GlobalState, new_global,
}

module _ (read_to_string : Text → Option Text) {Client : Type 0}
    (from_str : Text → Option ClientSecret) (discover : ClientSecret → Text → Text → Option Client)
    {IdToken Userinfo : Type 0} (P : MapApi Text (PendingSession Client))
    (api : ClientApi Client IdToken Userinfo)
    (B : BiMapApi Text LoginTokenData (TokenEntry LoginTokenData) (λ e. e.identifier))
    (M : MapApi Text AttributeValue) where
  -- The files of a configuration can be read, and the secret in one of them leads to a client.
  pub record IsReadable (config : StateConfig) (late : Text) : Type 0 where
    pub internal_error : (page : Text) × (read_to_string config.internal_error_path ≡ some page)
    pub invalid : (page : Text) × (read_to_string config.invalid_path ≡ some page)
    pub success : (page : Text) × (read_to_string config.success_path ≡ some page)
    pub late_page : read_to_string config.late_path ≡ some late
    pub client :
        (text : Text) × (secret : ClientSecret) × (found : Client) × (read_to_string
            config.google_client_secret_path
          ≡ some text)
        × (from_str text ≡ some secret)
        × (discover secret
              (config.oidc_redirect_base ++ bytes "/oidc/redirect")
              (bytes "https://accounts.google.com")
            ≡ some found)

  read_page-ok :
      (path page : Text) → read_to_string path ≡ some page → read_page read_to_string path ≡ ok page
  unfolding read_page
  read_page-ok path page there = rw (there, read_page) refl

  new_google_oidc-ok :
      (config : StateConfig) (late : Text)
      → (h : IsReadable config late)
      → new_google_oidc_from_file read_to_string from_str discover config.google_client_secret_path
          (config.oidc_redirect_base ++ bytes "/oidc/redirect")
        ≡ ok h.client.2
  unfolding new_google_oidc_from_file parse_secret new_oidc_client
  new_google_oidc-ok config late h =
      let (text, secret, found, there, parsed, discovered) = h.client in
      rw (read_page-ok config.google_client_secret_path text there)
        (rw (parsed, parse_secret) (rw (discovered, new_oidc_client) refl))

  -- A server starts afresh, but for its boards: where the files of the configuration can be read, the
  -- client is discovered, the node binds its port, and the database answers with the players and scores
  -- that were written to it, the shared state is made; a redirect from before the start is shown the
  -- page of the late file and changes nothing, no login token from before the start is verified, and
  -- the boards have the players and scores of the database.
  pub new_global_lem :
      (config : StateConfig) (late : Text) (rows : Difficulty → List Row) (now : ℕ)
      → IsReadable config late
      → ((d : Difficulty) → All (λ row. row.entry.score ≤ 65535) (rows d))
      → (state : GlobalState read_to_string from_str discover P api B M) × (new_global
            read_to_string from_str discover P api B M config true
            (λ d. ok (some (map (written M d) (rows d))))
            now
          ≡ ok state)
        × ((code csrf_token : Text)
            → verify_auth P api code csrf_token state.auth_pages state.oidc_state
              ≡ (state.oidc_state, late))
        × ((token : Text) → verify_token B token state.login_tokens ≡ (state.login_tokens, none))
        × (state.leaderboard.easy_leaderboard ≡ map (λ row. row.entry) (rows easy))
        × (state.leaderboard.normal_leaderboard ≡ map (λ row. row.entry) (rows normal))
        × (state.leaderboard.expert_leaderboard ≡ map (λ row. row.entry) (rows expert))
  unfolding new_global verify_auth verify_token new
  new_global_lem config late rows now h fits = (
    record {
      oidc_state = record { pending_auths = P.empty; sent = [] };
      goidc = h.client.2;
      auth_pages = record {
        late = late;
        invalid = h.invalid.0;
        internal_error = h.internal_error.0;
        success = h.success.0;
      };
      login_tokens = new B config.token_duration;
      leaderboard = record {
        easy_leaderboard = map (λ row. row.entry) (rows easy);
        normal_leaderboard = map (λ row. row.entry) (rows normal);
        expert_leaderboard = map (λ row. row.entry) (rows expert);
        last_update = now;
        leaderboard_span = 5;
        updates = [];
        writes = [];
        sent = [];
      };
      tournament = record { start_time_duration = config.start_week_time };
    },
    rw
        (
          read_page-ok config.internal_error_path h.internal_error.0 h.internal_error.1,
          read_page-ok config.invalid_path h.invalid.0 h.invalid.1,
          read_page-ok config.success_path h.success.0 h.success.1,
          read_page-ok config.late_path late h.late_page,
          new_google_oidc-ok config late h,
          new_leaderboard-written M rows now 5 fits,
        )
        refl,
    λ code csrf_token. rw (P.get-empty csrf_token, verify_auth) refl,
    λ token. rw (B.get-empty token, verify_token) refl,
    refl,
    refl,
    refl,
  )

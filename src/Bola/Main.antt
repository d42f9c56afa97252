-- ===== src/Bola/Main.antt =====
-- bola-api/src/main.rs: how the server of Bola is configured and started. The state that is shared by
-- the handlers, the handlers themselves (with the stylesheet that one serves) and the control server are
-- given.
mod Laws
mod Tests
use mangle_apis.Base.{
  ℕ, Bool, true, false, Option, none, some, List, [], ◌∷◌, map, is_empty, if◌then◌else◌,
}
use mangle_apis.Base.Text.{Text, bytes}
use mangle_apis.Base.Outcome.{Outcome, ok, err, panic, ◌>>=◌}
use mangle_apis.Core.Api.{
  SocketAddr, BindAddress, Unset, Api, ReadyApi, new_api, set_state, set_pipe_name,
  set_cors_allowed_methods, set_cors_allowed_origins, set_api_token, set_bind_address,
  set_public_paths, set_routes, set_https_identity, set_control_handler, set_concurrent_future,
}
use mangle_apis.Core.Credentials.{WriteAnswer, Files, CredentialsError, get_https_credentials}

-- The fields of `Config` that the builder and the credentials depend on.
pub record Config : Type 0 where
  pub https : Bool
  pub https_domain : Text
  pub bind_address : BindAddress
  pub api_token : Text
  pub cors_allowed_methods : List Text
  pub cors_allowed_origins : List Text

pub data StartError : Type 0 where
  empty_domain bad_token bad_method bad_origin : StartError
  credentials : CredentialsError → StartError

-- The routes of the server.
pub record Handlers (Route : Type 0) : Type 0 where
  pub oidc_redirect : Route
  pub stylesheet : Route
  pub ws_api : Route
  pub home : Route

-- `try_for_each(|x| x.parse().map(|x| out.push(x)))?`.
unfoldable pub parse_all :
    {A : Type 0} → (Text → Option A) → StartError → List Text → Outcome StartError (List A)
parse_all parse e [] = ok []
parse_all parse e (text ∷ texts) = elim (parse text) [
  | none ↦ err e
  | some x ↦ parse_all parse e texts >>= λ xs. ok (x ∷ xs)
]

module _ (MethodRouter : Type 0 → Type 0)
    {AllowMethods AllowOrigin Identity HeaderValue Method Origin : Type 0}
    (from_pkcs8 : Text → Text → Option Identity) (header_from_str : Text → Option HeaderValue)
    (parse_method : Text → Option Method) (parse_origin : Text → Option Origin)
    (methods_from : List Method → AllowMethods) (origins_from : List Origin → AllowOrigin) where
  -- Whether HTTPS is wanted, and its identity.
  unfoldable pub load_identity :
      Config
      → (SocketAddr → Option (Text × Text))
      → WriteAnswer
      → WriteAnswer
      → Files
      → Outcome StartError (Option Identity)
  load_identity config obtain for_certs for_key files =
      if config.https
      then if is_empty config.https_domain
        then err empty_domain
        else elim (get_https_credentials from_pkcs8 config.bind_address obtain for_certs for_key
            files).1 [
              | ok identity ↦ ok (some identity)
              | err e ↦ err (credentials e)
              | panic ↦ panic
            ]
      else ok none

  unfoldable pub parse_token : Text → Outcome StartError HeaderValue
  parse_token text = elim (header_from_str text) [ none ↦ err bad_token | some token ↦ ok token ]

  module _ {State H Fut : Type 0} where
    -- `api.set_https_identity(https_der)`, or the builder as it is.
    unfoldable pub add_identity :
        Option Identity
        → ReadyApi MethodRouter AllowMethods AllowOrigin Identity HeaderValue State H Fut
        → ReadyApi MethodRouter AllowMethods AllowOrigin Identity HeaderValue State H Fut
    add_identity (some identity) api =
        set_https_identity MethodRouter AllowMethods AllowOrigin Identity HeaderValue identity api
    add_identity none api = api

    -- The chain of setters.
    unfoldable pub configured :
        Config
        → State
        → Text
        → Handlers (MethodRouter State)
        → H
        → Fut
        → HeaderValue
        → List Method
        → List Origin
        → ReadyApi MethodRouter AllowMethods AllowOrigin Identity HeaderValue State H Fut
    configured config state pipe_name handlers control_handler control_recv token methods origins =
        let api =
          new_api MethodRouter AllowMethods AllowOrigin Identity HeaderValue (methods_from [])
            (origins_from []) tt in
        let api = set_state MethodRouter AllowMethods AllowOrigin Identity HeaderValue state api in
        let api =
          set_pipe_name MethodRouter AllowMethods AllowOrigin Identity HeaderValue pipe_name api in
        let api =
          set_api_token MethodRouter AllowMethods AllowOrigin Identity HeaderValue token api in
        let api =
          set_bind_address MethodRouter AllowMethods AllowOrigin Identity HeaderValue
            config.bind_address api in
        let api =
          set_cors_allowed_methods MethodRouter AllowMethods AllowOrigin Identity HeaderValue
            (methods_from methods) api in
        let api =
          set_cors_allowed_origins MethodRouter AllowMethods AllowOrigin Identity HeaderValue
            (origins_from origins) api in
        let api =
          set_public_paths MethodRouter AllowMethods AllowOrigin Identity HeaderValue
            (bytes "^/oidc/" ∷ bytes "^/manglemix.css$" ∷ bytes "^/$" ∷ []) api in
        let api =
          set_routes MethodRouter AllowMethods AllowOrigin Identity HeaderValue
            ((bytes "/oidc/redirect", handlers.oidc_redirect)
              ∷ (bytes "/manglemix.css", handlers.stylesheet)
              ∷ (bytes "/ws_api", handlers.ws_api)
              ∷ (bytes "/", handlers.home)
              ∷ [])
            api in
        let api =
          set_control_handler MethodRouter AllowMethods AllowOrigin Identity HeaderValue
            control_handler api in
        set_concurrent_future MethodRouter AllowMethods AllowOrigin Identity HeaderValue
          control_recv api

    -- `main` from the configuration to the call of `run`, with the answers of ACME and of the disk.
    unfoldable pub start :
        Config
        → State
        → Text
        → Handlers (MethodRouter State)
        → H
        → Fut
        → (SocketAddr → Option (Text × Text))
        → WriteAnswer
        → WriteAnswer
        → Files
        → Outcome StartError
            (ReadyApi MethodRouter AllowMethods AllowOrigin Identity HeaderValue State H Fut)
    start config state pipe_name handlers control_handler control_recv obtain for_certs for_key
          files =
        load_identity config obtain for_certs for_key files >>= λ identity.
        parse_token config.api_token >>= λ token.
        parse_all parse_method bad_method config.cors_allowed_methods >>= λ methods.
        parse_all parse_origin bad_origin config.cors_allowed_origins >>= λ origins. ok (
          add_identity identity (
            configured config state pipe_name handlers control_handler control_recv token methods
              origins))

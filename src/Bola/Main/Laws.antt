-- ===== src/Bola/Main/Laws.antt =====
-- On which endpoint a server is served that `main` has configured.
use mangle_apis.Base.{◌≡◌, ◌≢◌, refl, ap, ◌∙◌, true, Option, none, some, List, arith}
use mangle_apis.Base.Text.{Text}
use mangle_apis.Base.Outcome.{Outcome, ok, err, panic, ◌>>=◌}
use mangle_apis.Core.Api.{
  SocketAddr, BindAddress, local, http, network, ReadyApi, set_https_identity, plain, serve_on,
  endpoint,
}
use mangle_apis.Core.Credentials.{WriteAnswer, Files}
use mangle_apis.Bola.Main.{
  Config, StartError, Handlers, load_identity, add_identity, configured, start,
}

module _ (MethodRouter : Type 0 → Type 0)
    {AllowMethods AllowOrigin Identity HeaderValue Method Origin : Type 0}
    (from_pkcs8 : Text → Text → Option Identity) (header_from_str : Text → Option HeaderValue)
    (parse_method : Text → Option Method) (parse_origin : Text → Option Origin)
    (methods_from : List Method → AllowMethods) (origins_from : List Origin → AllowOrigin) where
  has_identity :
      (config : Config) (obtain : SocketAddr → Option (Text × Text))
      (for_certs for_key : WriteAnswer) (files : Files)
      → config.https ≡ true
      → load_identity MethodRouter from_pkcs8 header_from_str parse_method parse_origin methods_from
          origins_from config obtain for_certs for_key files
        ≢ ok none
  unfolding load_identity
  has_identity config obtain for_certs for_key files on h = ground arith

  over_tls :
      (bind : BindAddress) (identity : Identity) (addr : SocketAddr)
      → serve_on MethodRouter AllowMethods AllowOrigin Identity HeaderValue bind (some identity)
        ≢ plain addr
  unfolding serve_on
  over_tls (local a) identity addr e = ground arith
  over_tls (network a) identity addr e = ground arith
  over_tls (http a) identity addr e = ground arith

  module _ {State H Fut : Type 0} where
    secured :
        (identity : Identity)
        (api : ReadyApi MethodRouter AllowMethods AllowOrigin Identity HeaderValue State H Fut)
        (addr : SocketAddr)
        → endpoint MethodRouter AllowMethods AllowOrigin Identity HeaderValue (
            add_identity MethodRouter from_pkcs8 header_from_str parse_method parse_origin
              methods_from origins_from
              (some identity)
              api)
          ≢ plain addr
    unfolding endpoint add_identity set_https_identity
    secured identity api addr = over_tls api.bind_address identity addr

    -- What `start` does with four results.
    never_plain :
        (identity : Outcome StartError (Option Identity)) (token : Outcome StartError HeaderValue)
        (methods : Outcome StartError (List Method)) (origins : Outcome StartError (List Origin))
        (build : HeaderValue
          → List Method
          → List Origin
          → ReadyApi MethodRouter AllowMethods AllowOrigin Identity HeaderValue State H Fut)
        (api : ReadyApi MethodRouter AllowMethods AllowOrigin Identity HeaderValue State H Fut)
        → identity ≢ ok none
        → (identity >>= λ i. token >>= λ t. methods >>= λ m. origins >>= λ o. ok (
            add_identity MethodRouter from_pkcs8 header_from_str parse_method parse_origin
              methods_from origins_from i
              (build t m o)))
          ≡ ok api
        → (addr : SocketAddr)
        → endpoint MethodRouter AllowMethods AllowOrigin Identity HeaderValue api ≢ plain addr
    never_plain (ok none) token methods origins build api n h addr e = absurd (n refl)
    never_plain (err e) token methods origins build api n h addr q = cc
    never_plain panic token methods origins build api n h addr e = cc
    never_plain (ok (some i)) (err e) methods origins build api n h addr q = cc
    never_plain (ok (some i)) panic methods origins build api n h addr e = cc
    never_plain (ok (some i)) (ok t) (err e) origins build api n h addr q = cc
    never_plain (ok (some i)) (ok t) panic origins build api n h addr e = cc
    never_plain (ok (some i)) (ok t) (ok m) (err e) build api n h addr q = cc
    never_plain (ok (some i)) (ok t) (ok m) panic build api n h addr e = cc
    never_plain (ok (some i)) (ok t) (ok m) (ok o) build api n h addr e =
        let same : add_identity MethodRouter from_pkcs8 header_from_str parse_method parse_origin
              methods_from origins_from (some i) (build t m o)
            ≡ api =
          cc in
        secured i (build t m o) addr
          (ap (λ a. endpoint MethodRouter AllowMethods AllowOrigin Identity HeaderValue a) same ∙ e)

    -- A server that `main` has configured for HTTPS, whatever its bind address, does not serve
    -- without TLS on a port.
    pub https_never_plain :
        (config : Config) (state : State) (pipe_name : Text)
        (handlers : Handlers (MethodRouter State)) (control_handler : H) (control_recv : Fut)
        (obtain : SocketAddr → Option (Text × Text)) (for_certs for_key : WriteAnswer)
        (files : Files)
        (api : ReadyApi MethodRouter AllowMethods AllowOrigin Identity HeaderValue State H Fut)
        → config.https ≡ true
        → start MethodRouter from_pkcs8 header_from_str parse_method parse_origin methods_from
            origins_from config state pipe_name handlers control_handler control_recv obtain
            for_certs for_key files
          ≡ ok api
        → (addr : SocketAddr)
        → endpoint MethodRouter AllowMethods AllowOrigin Identity HeaderValue api ≢ plain addr
    unfolding start
    https_never_plain config state pipe_name handlers control_handler control_recv obtain for_certs
          for_key files api on started addr =
        never_plain _ _ _ _
          (λ t m o.
            configured MethodRouter from_pkcs8 header_from_str parse_method parse_origin
              methods_from origins_from config state pipe_name handlers control_handler control_recv
              t m o)
          api (has_identity config obtain for_certs for_key files on) started addr

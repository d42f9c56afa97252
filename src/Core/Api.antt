-- ===== src/Core/Api.antt =====
-- mangle-api-core/src/lib.rs: how a server is put together and started. A type parameter that is
-- `Unset` says at compile time that `run` cannot be called yet.
use mangle_apis.Base.{ℕ, Option, none, some, List, []}
use mangle_apis.Base.Text.{Text}

-- `IpAddr` and `SocketAddr`, as an address and a port.
pub record SocketAddr : Type 0 where
  pub ip : Text
  pub port : ℕ

pub data BindAddress : Type 0 where
  local : Text → BindAddress
  http : Text → BindAddress
  network : SocketAddr → BindAddress

pub data Unset : Type 0 where
  unset : Unset

-- The types of axum, tower_http and native_tls that the builder only stores.
module _ (MethodRouter : Type 0 → Type 0)
    (AllowMethods AllowOrigin Identity HeaderValue : Type 0) where
  pub record Api (S P AT BA H Fut : Type 0) : Type 0 where
    pub state : S
    pub pipe_name : P
    pub cors_allowed_methods : AllowMethods
    pub cors_allowed_origins : AllowOrigin
    pub api_token : AT
    pub bind_address : BA
    pub public_paths : List Text
    pub routes : List (Text × MethodRouter S)
    pub https_identity : Option Identity
    pub control_handler : H
    pub concurrent_fut : Fut

  -- An `Api` that `run` takes.
  abbrev pub ReadyApi : Type 0 → Type 0 → Type 0 → Type 0
  ReadyApi S H Fut = Api S Text HeaderValue BindAddress H Fut

  -- `AllowMethods::from([])`, `AllowOrigin::from([])` and `pending()` are given.
  unfoldable pub new_api :
      {Pending : Type 0}
      → AllowMethods
      → AllowOrigin
      → Pending
      → Api Unset Unset Unset Unset Unset Pending
  new_api no_methods no_origin pending = record {
    state = unset;
    pipe_name = unset;
    cors_allowed_methods = no_methods;
    cors_allowed_origins = no_origin;
    api_token = unset;
    bind_address = unset;
    public_paths = [];
    routes = [];
    https_identity = none;
    control_handler = unset;
    concurrent_fut = pending;
  }

  module _ {S P AT BA H Fut : Type 0} where
    unfoldable pub set_state : {S2 : Type 0} → S2 → Api S P AT BA H Fut → Api S2 P AT BA H Fut
    set_state state self = record {
      state = state;
      pipe_name = self.pipe_name;
      cors_allowed_methods = self.cors_allowed_methods;
      cors_allowed_origins = self.cors_allowed_origins;
      api_token = self.api_token;
      bind_address = self.bind_address;
      public_paths = self.public_paths;
      routes = [];
      https_identity = self.https_identity;
      control_handler = self.control_handler;
      concurrent_fut = self.concurrent_fut;
    }

    unfoldable pub set_pipe_name : Text → Api S P AT BA H Fut → Api S Text AT BA H Fut
    set_pipe_name pipe_name self = record {
      state = self.state;
      pipe_name = pipe_name;
      cors_allowed_methods = self.cors_allowed_methods;
      cors_allowed_origins = self.cors_allowed_origins;
      api_token = self.api_token;
      bind_address = self.bind_address;
      public_paths = self.public_paths;
      routes = self.routes;
      https_identity = self.https_identity;
      control_handler = self.control_handler;
      concurrent_fut = self.concurrent_fut;
    }

    unfoldable pub set_cors_allowed_methods :
        AllowMethods → Api S P AT BA H Fut → Api S P AT BA H Fut
    set_cors_allowed_methods methods self = record self { cors_allowed_methods = methods }

    unfoldable pub set_cors_allowed_origins :
        AllowOrigin → Api S P AT BA H Fut → Api S P AT BA H Fut
    set_cors_allowed_origins origins self = record self { cors_allowed_origins = origins }

    unfoldable pub set_api_token : HeaderValue → Api S P AT BA H Fut → Api S P HeaderValue BA H Fut
    set_api_token api_token self = record {
      state = self.state;
      pipe_name = self.pipe_name;
      cors_allowed_methods = self.cors_allowed_methods;
      cors_allowed_origins = self.cors_allowed_origins;
      api_token = api_token;
      bind_address = self.bind_address;
      public_paths = self.public_paths;
      routes = self.routes;
      https_identity = self.https_identity;
      control_handler = self.control_handler;
      concurrent_fut = self.concurrent_fut;
    }

    unfoldable pub set_bind_address :
        BindAddress → Api S P AT BA H Fut → Api S P AT BindAddress H Fut
    set_bind_address bind_address self = record {
      state = self.state;
      pipe_name = self.pipe_name;
      cors_allowed_methods = self.cors_allowed_methods;
      cors_allowed_origins = self.cors_allowed_origins;
      api_token = self.api_token;
      bind_address = bind_address;
      public_paths = self.public_paths;
      routes = self.routes;
      https_identity = self.https_identity;
      control_handler = self.control_handler;
      concurrent_fut = self.concurrent_fut;
    }

    unfoldable pub set_public_paths : List Text → Api S P AT BA H Fut → Api S P AT BA H Fut
    set_public_paths public_paths self = record self { public_paths = public_paths }

    unfoldable pub set_routes :
        List (Text × MethodRouter S) → Api S P AT BA H Fut → Api S P AT BA H Fut
    set_routes routes self = record self { routes = routes }

    unfoldable pub set_https_identity : Identity → Api S P AT BA H Fut → Api S P AT BA H Fut
    set_https_identity identity self = record self { https_identity = some identity }

    unfoldable pub set_control_handler :
        {H2 : Type 0} → H2 → Api S P AT BA H Fut → Api S P AT BA H2 Fut
    set_control_handler handler self = record {
      state = self.state;
      pipe_name = self.pipe_name;
      cors_allowed_methods = self.cors_allowed_methods;
      cors_allowed_origins = self.cors_allowed_origins;
      api_token = self.api_token;
      bind_address = self.bind_address;
      public_paths = self.public_paths;
      routes = self.routes;
      https_identity = self.https_identity;
      control_handler = handler;
      concurrent_fut = self.concurrent_fut;
    }

    unfoldable pub set_concurrent_future :
        {Fut2 : Type 0} → Fut2 → Api S P AT BA H Fut → Api S P AT BA H Fut2
    set_concurrent_future fut self = record {
      state = self.state;
      pipe_name = self.pipe_name;
      cors_allowed_methods = self.cors_allowed_methods;
      cors_allowed_origins = self.cors_allowed_origins;
      api_token = self.api_token;
      bind_address = self.bind_address;
      public_paths = self.public_paths;
      routes = self.routes;
      https_identity = self.https_identity;
      control_handler = self.control_handler;
      concurrent_fut = fut;
    }

  -- Where `run` serves: on a Unix socket, plainly on a port, or over TLS on a port.
  pub data Endpoint : Type 0 where
    unix_socket : Text → Endpoint
    plain : SocketAddr → Endpoint
    tls : Identity → SocketAddr → Endpoint

  -- The match on the bind address at the end of `run`, for a Unix target.
  unfoldable pub serve_on : BindAddress → Option Identity → Endpoint
  serve_on (local addr) identity = unix_socket addr
  serve_on (network addr) (some identity) = tls identity addr
  serve_on (network addr) none = plain addr
  serve_on (http ip) (some identity) = tls identity (record { ip = ip; port = 443 })
  serve_on (http ip) none = plain (record { ip = ip; port = 80 })

  unfoldable pub endpoint : {S H Fut : Type 0} → ReadyApi S H Fut → Endpoint
  endpoint self = serve_on self.bind_address self.https_identity

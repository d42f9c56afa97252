-- ===== src/Bola/Main/Tests.antt =====
-- A server over HTTPS, with a certificate on disk.
use mangle_apis.Base.{ℕ, ◌≡◌, ◌≢◌, refl, true, Option, none, some, List, [], ◌∷◌}
use mangle_apis.Base.Text.{Text, bytes}
use mangle_apis.Base.Outcome.{ok}
use mangle_apis.Core.Api.{http, ReadyApi, plain, endpoint}
use mangle_apis.Core.Credentials.{
  contents, not_created, Files, get_https_credentials, with_certs, read_file, load,
}
use mangle_apis.Bola.Main.{
  Config, Handlers, parse_all, load_identity, add_identity, configured, parse_token, start,
}
use mangle_apis.Bola.Main.Laws.{https_never_plain}

abbrev Method : Type 0 → Type 0
Method S = ℕ

abbrev config : Config
config = record {
  https = true;
  https_domain = bytes "a.x";
  bind_address = http (bytes "0.0.0.0");
  api_token = bytes "k3y";
  cors_allowed_methods = bytes "GET" ∷ [];
  cors_allowed_origins = [];
}

abbrev files : Files
files = record { certs = contents (bytes "cert"); key = contents (bytes "key") }

abbrev pair_up : Text → Text → Option (Text × Text)
pair_up certs key = some (certs, key)

abbrev handlers : Handlers ℕ
handlers = record { oidc_redirect = 1; stylesheet = 2; ws_api = 3; home = 4 }

abbrev as_text : Text → Option Text
as_text text = some text

abbrev all : List Text → List Text
all texts = texts

abbrev number : ℕ
number = 0

abbrev running : ReadyApi Method (List Text) (List Text) (Text × Text) Text ℕ ℕ ℕ
running =
    add_identity Method pair_up as_text as_text as_text all all (some (bytes "cert", bytes "key")) (
      configured Method pair_up as_text as_text as_text all all config number (bytes "pipe")
        handlers number number (bytes "k3y") (bytes "GET" ∷ []) [])

started :
    start Method pair_up as_text as_text as_text all all config number
      (bytes "pipe")
      handlers
      number
      number
      (λ a. none)
      not_created
      not_created
      files
    ≡ ok running
unfolding start load_identity parse_all parse_token get_https_credentials with_certs read_file load
started = refl

https_never_plain_example :
    endpoint Method (List Text) (List Text) (Text × Text) Text running
    ≢ plain (record { ip = bytes "0.0.0.0"; port = 80 })
https_never_plain_example =
    https_never_plain Method pair_up as_text as_text as_text all all config number (bytes "pipe")
      handlers number number (λ a. none) not_created not_created files running refl started
      (record { ip = bytes "0.0.0.0"; port = 80 })

-- ===== src/Core/Credentials/Tests.antt =====
-- A server that starts without a certificate.
use mangle_apis.Base.{◌≡◌, ◌≢◌, refl, Option, none, some, [], arith}
use mangle_apis.Base.Text.{Text, bytes}
use mangle_apis.Base.Outcome.{ok}
use mangle_apis.Core.Api.{SocketAddr, local, network}
use mangle_apis.Core.Credentials.{
  missing, contents, not_created, written, Files, read_file, write_file, load, write_key,
  write_both, with_certs, get_https_credentials,
}
use mangle_apis.Core.Credentials.Laws.{credentials_survive_restart}

abbrev pair_up : Text → Text → Option (Text × Text)
pair_up certs key = some (certs, key)

abbrev address : SocketAddr
address = record { ip = bytes "10.0.0.1"; port = 443 }

abbrev acme : SocketAddr → Option (Text × Text)
acme a = some (bytes "cert", bytes "key")

abbrev no_files : Files
no_files = record { certs = missing; key = missing }

abbrev both_files : Files
both_files = record { certs = contents (bytes "cert"); key = contents (bytes "key") }

never_empty : (a : SocketAddr) (key : Text) → acme a ≢ some ([], key)
never_empty a key e = ground arith

first_start :
    get_https_credentials pair_up (network address) acme written written no_files
    ≡ (both_files, ok (bytes "cert", bytes "key"))
unfolding get_https_credentials with_certs read_file write_both write_file write_key load
first_start = refl

credentials_survive_restart_example :
    get_https_credentials pair_up
      (local (bytes "sock"))
      (λ a. none)
      not_created
      not_created
      both_files
    ≡ (both_files, ok (bytes "cert", bytes "key"))
credentials_survive_restart_example =
    credentials_survive_restart pair_up (network address) acme written written no_files both_files
      (bytes "cert", bytes "key") never_empty first_start (local (bytes "sock")) (λ a. none)
      not_created not_created

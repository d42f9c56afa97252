-- ===== src/Core/Credentials.antt =====
-- mangle-api-core/src/lib.rs, `get_https_credentials`: the certificate of a server, read from its files
-- or, on a network address, obtained over ACME and written to them. The ACME client (crate lers) and
-- `Identity::from_pkcs8` are parameters.
mod Laws
mod Tests
use mangle_apis.Base.{ℕ, Bool, true, false, Option, none, some, List, [], ◌∷◌}
use mangle_apis.Base.Text.{Text}
use mangle_apis.Base.Outcome.{Outcome, ok, err, panic, ◌>>=◌}
use mangle_apis.Core.Api.{SocketAddr, BindAddress, local, http, network}

pub data FileState : Type 0 where
  missing : FileState
  -- another error than `NotFound`, on opening or on reading
  unreadable : FileState
  contents : Text → FileState

-- What becomes of a file that is created and written.
pub data WriteAnswer : Type 0 where
  not_created : WriteAnswer
  -- created, and an error after these bytes
  cut_short : Text → WriteAnswer
  written : WriteAnswer

pub record Files : Type 0 where
  pub certs : FileState
  pub key : FileState

pub data CredentialsError : Type 0 where
  reading obtaining binded_locally writing loading : CredentialsError

unfoldable pub read_file : FileState → Outcome CredentialsError Text
read_file missing = ok []
read_file unreadable = err reading
read_file (contents bytes) = ok bytes

-- `File::create(path)?.write_all(bytes)?`.
unfoldable pub write_file :
    WriteAnswer → Text → FileState → FileState × Outcome CredentialsError (Unit {0})
write_file not_created bytes file = (file, err writing)
write_file (cut_short some_bytes) bytes file = (contents some_bytes, err writing)
write_file written bytes file = (contents bytes, ok tt)

module _ {Identity : Type 0} (from_pkcs8 : Text → Text → Option Identity) where
  unfoldable pub load : Text → Text → Outcome CredentialsError Identity
  load certs key = elim (from_pkcs8 certs key) [ none ↦ err loading | some identity ↦ ok identity ]

  -- The certificate is written first, then the key, and then both are loaded.
  unfoldable pub write_key :
      WriteAnswer → Text → Text → Files → Files × Outcome CredentialsError Identity
  write_key answer certs key files =
      let after = write_file answer key files.key in
      (record files { key = after.0 }, after.1 >>= λ _. load certs key)

  unfoldable pub write_both :
      WriteAnswer → WriteAnswer → Text → Text → Files → Files × Outcome CredentialsError Identity
  write_both for_certs for_key certs key files =
      let after = write_file for_certs certs files.certs in
      elim after.1 [
        | ok _ ↦ write_key for_key certs key (record files { certs = after.0 })
        | err e ↦ (record files { certs = after.0 }, err e)
        | panic ↦ (record files { certs = after.0 }, panic)
      ]

  -- What to do with a certificate that is there or not. The third argument is the answer of ACME for
  -- the address, with port 80.
  unfoldable pub with_certs :
      BindAddress
      → (SocketAddr → Option (Text × Text))
      → WriteAnswer
      → WriteAnswer
      → Text
      → Text
      → Files
      → Files × Outcome CredentialsError Identity
  with_certs address obtain for_certs for_key (c ∷ certs) key files = (files, load (c ∷ certs) key)
  with_certs (network address) obtain for_certs for_key [] key files =
      elim (obtain (record address { port = 80 })) [
        | none ↦ (files, err obtaining)
        | some (certs, new_key) ↦ write_both for_certs for_key certs new_key files
      ]
  with_certs _ obtain for_certs for_key [] key files = (files, err binded_locally)

  unfoldable pub get_https_credentials :
      BindAddress
      → (SocketAddr → Option (Text × Text))
      → WriteAnswer
      → WriteAnswer
      → Files
      → Files × Outcome CredentialsError Identity
  get_https_credentials address obtain for_certs for_key files = elim (read_file files.certs) [
    | ok certs ↦ elim (read_file files.key) [
      | ok key ↦ with_certs address obtain for_certs for_key certs key files
      | err e ↦ (files, err e)
      | panic ↦ (files, panic)
    ]
    | err e ↦ (files, err e)
    | panic ↦ (files, panic)
  ]

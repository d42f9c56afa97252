-- ===== src/Core/Credentials/Laws.antt =====
-- Loading credentials twice, from the files that the first time leaves.
use mangle_apis.Base.{arith, ℕ, subst, ◌≡◌, ◌≢◌, refl, ap, Option, none, some, [], ◌∷◌}
use mangle_apis.Base.Text.{Text}
use mangle_apis.Base.Outcome.{Outcome, ok, err, panic}
use mangle_apis.Core.Api.{SocketAddr, BindAddress, local, http, network}
use mangle_apis.Core.Credentials.{
  FileState, contents, WriteAnswer, not_created, cut_short, written, Files, CredentialsError,
  obtaining, read_file, write_file, load, write_key, write_both, with_certs, get_https_credentials,
}

module _ {Identity : Type 0} (from_pkcs8 : Text → Text → Option Identity) where
  -- The files hold a certificate and a key that give the identity.
  data Holds (files : Files) (identity : Identity) : Type 0 where
    holds :
        (c : ℕ) (certs key : Text)
        → read_file files.certs ≡ ok (c ∷ certs)
        → read_file files.key ≡ ok key
        → load from_pkcs8 (c ∷ certs) key ≡ ok identity
        → Holds files identity

  reads_again :
      (address : BindAddress) (obtain : SocketAddr → Option (Text × Text))
      (for_certs for_key : WriteAnswer) (files : Files) (identity : Identity)
      → Holds files identity
      → get_https_credentials from_pkcs8 address obtain for_certs for_key files
        ≡ (files, ok identity)
  unfolding get_https_credentials with_certs
  reads_again address obtain for_certs for_key files identity (holds c certs key p q r) =
      rw (p, get_https_credentials) (rw (q, get_https_credentials) (rw (with_certs, r) refl))

  not_ok : {e : CredentialsError} {i : Identity} → err e ≡ ok i → ⊥
  not_ok h = ground arith

  stuck : {i : Identity} (o : Outcome CredentialsError Identity) → o ≡ ok i → o ≡ panic → ⊥
  stuck o h q = ground arith

  key_written :
      (answer : WriteAnswer) (c : ℕ) (certs key : Text) (k : FileState) (files' : Files)
      (identity : Identity)
      → write_key from_pkcs8 answer
          (c ∷ certs)
          key
          (record { certs = contents (c ∷ certs); key = k })
        ≡ (files', ok identity)
      → Holds files' identity
  unfolding write_key write_file read_file
  key_written written c certs key k files' identity h =
      subst (λ f. Holds f identity) (ap (λ p. p.0) h)
        (holds c certs key refl refl (ap (λ p. p.1) h))
  key_written not_created c certs key k files' identity h = absurd (not_ok (ap (λ p. p.1) h))
  key_written (cut_short t) c certs key k files' identity h = absurd (not_ok (ap (λ p. p.1) h))

  both_written :
      (for_certs for_key : WriteAnswer) (c : ℕ) (certs key : Text) (files files' : Files)
      (identity : Identity)
      → write_both from_pkcs8 for_certs for_key (c ∷ certs) key files ≡ (files', ok identity)
      → Holds files' identity
  unfolding write_both write_file
  both_written written for_key c certs key files files' identity h =
      key_written for_key c certs key files.key files' identity h
  both_written not_created for_key c certs key files files' identity h =
      absurd (not_ok (ap (λ p. p.1) h))
  both_written (cut_short t) for_key c certs key files files' identity h =
      absurd (not_ok (ap (λ p. p.1) h))

  abbrev Full : Option (Text × Text) → Type 0
  Full answer = (key : Text) → answer ≢ some ([], key)

  obtained :
      (for_certs for_key : WriteAnswer) (answer : Option (Text × Text)) (files files' : Files)
      (identity : Identity)
      → Full answer
      → (elim answer as (λ _. Files × Outcome CredentialsError Identity) [
        | none ↦ (files, err obtaining)
        | some (certs, new_key) ↦ write_both from_pkcs8 for_certs for_key certs new_key files
      ])
        ≡ (files', ok identity)
      → Holds files' identity
  obtained for_certs for_key none files files' identity full h = absurd (not_ok (ap (λ p. p.1) h))
  obtained for_certs for_key (some ([], key)) files files' identity full h = absurd (full key refl)
  obtained for_certs for_key (some (c ∷ certs, key)) files files' identity full h =
      both_written for_certs for_key c certs key files files' identity h

  certs_held :
      (address : BindAddress) (obtain : SocketAddr → Option (Text × Text))
      (for_certs for_key : WriteAnswer) (certs key : Text) (files files' : Files)
      (identity : Identity)
      → ((a : SocketAddr) → Full (obtain a))
      → read_file files.certs ≡ ok certs
      → read_file files.key ≡ ok key
      → with_certs from_pkcs8 address obtain for_certs for_key certs key files
        ≡ (files', ok identity)
      → Holds files' identity
  unfolding with_certs
  certs_held address obtain for_certs for_key (c ∷ certs) key files files' identity full p q h =
      subst (λ f. Holds f identity) (ap (λ p. p.0) h) (holds c certs key p q (ap (λ p. p.1) h))
  certs_held (network a) obtain for_certs for_key [] key files files' identity full p q h =
      obtained for_certs for_key (obtain (record a { port = 80 })) files files' identity
        (full (record a { port = 80 })) h
  certs_held (local a) obtain for_certs for_key [] key files files' identity full p q h =
      absurd (not_ok (ap (λ p. p.1) h))
  certs_held (http a) obtain for_certs for_key [] key files files' identity full p q h =
      absurd (not_ok (ap (λ p. p.1) h))

  -- If credentials could be loaded once, whether they were on disk or had to be obtained, and ACME never
  -- gives an empty certificate, then the next start loads the same identity from the files that the
  -- first one left, on any address, without writing to them, and whatever ACME and the disk would
  -- answer then.
  pub credentials_survive_restart :
      (address : BindAddress) (obtain : SocketAddr → Option (Text × Text))
      (for_certs for_key : WriteAnswer) (files files' : Files) (identity : Identity)
      → ((a : SocketAddr) (key : Text) → obtain a ≢ some ([], key))
      → get_https_credentials from_pkcs8 address obtain for_certs for_key files
        ≡ (files', ok identity)
      → (address' : BindAddress) (obtain' : SocketAddr → Option (Text × Text))
        (for_certs' for_key' : WriteAnswer)
      → get_https_credentials from_pkcs8 address' obtain' for_certs' for_key' files'
        ≡ (files', ok identity)
  credentials_survive_restart address obtain for_certs for_key files files' identity full h address'
        obtain' for_certs' for_key' =
      reads_again address' obtain' for_certs' for_key' files' identity (
        first (read_file files.certs) (read_file files.key) refl refl
          (unfold get_https_credentials in h))
    where
      first :
          (certs key : Outcome CredentialsError Text)
          → read_file files.certs ≡ certs
          → read_file files.key ≡ key
          → (elim certs as (λ _. Files × Outcome CredentialsError Identity) [
            | ok certs ↦ elim key [
              | ok key ↦ with_certs from_pkcs8 address obtain for_certs for_key certs key files
              | err e ↦ (files, err e)
              | panic ↦ (files, panic)
            ]
            | err e ↦ (files, err e)
            | panic ↦ (files, panic)
          ])
            ≡ (files', ok identity)
          → Holds files' identity
      first (ok certs) (ok key) p q h =
          certs_held address obtain for_certs for_key certs key files files' identity full p q h
      first (ok certs) (err e) p q h = absurd (not_ok (ap (λ p. p.1) h))
      first (ok certs) panic p q h = absurd (stuck panic (ap (λ p. p.1) h) refl)
      first (err e) key p q h = absurd (not_ok (ap (λ p. p.1) h))
      first panic key p q h = absurd (stuck panic (ap (λ p. p.1) h) refl)

-- ===== src/Messagist/Text/Laws.antt =====
-- JSON over binary frames: what is sent arrives, and what the peer can do to the receiver.
use mangle_apis.Base.{
  ℕ, ◌<◌, ◌≡◌, refl, Option, some, List, [], ◌∷◌, ◌++◌, Option-cases, inl, inr, lt→ltb,
}
use mangle_apis.Base.Outcome.{Outcome, ok, err, panic}
use mangle_apis.Messagist.Bin
use mangle_apis.Messagist.Bin.{Pipe, BinaryError, read_exact, usize_size}
use mangle_apis.Messagist.Bin.Frame
use mangle_apis.Messagist.Text.{only_io_error, read_json, recv_binary, send_binary}

module _ {M : Type 0} (to_vec : M → Option (List ℕ)) (from_slice : List ℕ → Option M)
    (serialize : List ℕ → Option (List ℕ)) (deserialize : List ℕ → Option (List ℕ)) where
  sent_binary :
      (m : M) (from sent : Pipe)
      → send_binary to_vec from_slice serialize deserialize m from ≡ ok sent
      → (json_bytes : List ℕ) × (to_vec m ≡ some json_bytes)
        × (Bin.send_message serialize deserialize json_bytes from ≡ ok sent)
  unfolding send_binary
  sent_binary m from sent = elim (Option-cases (to_vec m)) [
    | inl no_json ↦ rw (no_json, send_binary) (λ e. absurd (cc))
    | inr (json_bytes, json) ↦
        rw (json, send_binary)
          (λ e. (
            json_bytes,
            refl,
            io_error-ok (Bin.send_message serialize deserialize json_bytes from) sent e,
          ))
  ]
    where
      io_error-ok :
          (o : Outcome BinaryError Pipe) (a : Pipe)
          → only_io_error to_vec from_slice serialize deserialize o ≡ ok a
          → o ≡ ok a
      io_error-ok (ok b) a e = cc
      io_error-ok (err Bin.io_error) a e = absurd (cc)
      io_error-ok (err Bin.size_limit) a e = absurd (cc)
      io_error-ok (err Bin.deserialize_error) a e = absurd (cc)
      io_error-ok panic a e = absurd (cc)

  -- For codecs of JSON and of bincode that read back what they have written, a message that was sent as
  -- JSON without an error arrives as that message, and the bytes behind it stay unread.
  pub recv_binary-send_binary :
      ((m : M) (json_bytes : List ℕ) → to_vec m ≡ some json_bytes → from_slice json_bytes ≡ some m)
      → Bin.Frame.IsCodec serialize deserialize
      → (m : M) (from sent : Pipe)
      → send_binary to_vec from_slice serialize deserialize m from ≡ ok sent
      → (wire : List ℕ) × (sent.output ≡ from.output ++ wire)
        × ((to : Pipe) (rest : List ℕ)
            → to.input ≡ wire ++ rest
            → recv_binary to_vec from_slice serialize deserialize to
              ≡ ok (m, record to { input = rest }))
  unfolding recv_binary read_json
  recv_binary-send_binary json codec m from sent e =
      let (json_bytes, written, framed) = sent_binary m from sent e in
      let (wire, appended, back) =
        Bin.Frame.recv-send serialize deserialize codec json_bytes from sent framed in
      (
        wire,
        appended,
        λ to rest comes.
            rw (back to rest comes, recv_binary) (rw (json m json_bytes written, read_json) refl),
      )

  -- A peer can make the receiver panic with one byte: after a first byte above 8, whatever follows it,
  -- `recv_message` comes to its `unreachable!`.
  pub recv_binary-panic :
      (count : ℕ) (rest : List ℕ) (p : Pipe)
      → usize_size < count
      → p.input ≡ count ∷ rest
      → recv_binary to_vec from_slice serialize deserialize p ≡ panic
  unfolding recv_binary Bin.recv_message
  recv_binary-panic count rest p above comes = rw (
    Bin.Frame.read_exact-append (count ∷ []) rest p comes,
    lt→ltb usize_size count above,
    recv_binary,
  )

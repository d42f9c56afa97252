-- ===== src/Bola/Command/Laws.antt =====
-- The command `stop`, from its client to the server.
use mangle_apis.Base.{ℕ, zero, suc, ◌≡◌, refl, Bool, Option, none, some, List, [], ◌∷◌, ◌++◌, All}
use mangle_apis.Base.Text.{Text, bytes, text_eq}
use mangle_apis.Base.Outcome.{Outcome, ok, err, panic}
use mangle_apis.Messagist.Bin.{Pipe, BinaryError, send_message, recv_message}
use mangle_apis.Messagist.Bin.Frame.{IsCodec, recv-send}
use mangle_apis.Messagist.Text.{Receipt, got, refused, panicked, waiting}
use mangle_apis.Messagist.Pipes.{Accept, accepted, failed, listen}
use mangle_apis.Bola.Control.{
  ControlClientMessage, stop, new_control_handler, control_listener, poll,
}
use mangle_apis.Bola.Control.Laws.{StopComes, here, past_failure, past_unreadable, poll_iff}
use mangle_apis.Bola.Command
use mangle_apis.Bola.Command.{
  Subcommand, other, Read, read_bytes, read_error, wait_for_error, Head, pre_matches, stop_command,
  unmatched_command, head,
}

-- A read without an error.
abbrev pub IsRead : Read → Type 0
IsRead (read_bytes count) = Unit
IsRead read_error = ⊥

wait_for_error-none : (n : ℕ) (reads : List Read) → All IsRead reads → wait_for_error n reads ≡ none
unfolding wait_for_error
wait_for_error-none zero reads h = refl
wait_for_error-none (suc n) [] h = wait_for_error-none n [] tt
wait_for_error-none (suc n) (read_bytes count ∷ reads) h = wait_for_error-none n reads h.1
wait_for_error-none (suc n) (read_error ∷ reads) h = absurd h.0

-- What the server gets from a connection, as the control handler sees it.
abbrev pub receipt_of : {M : Type 0} → Outcome BinaryError (M × Pipe) → Receipt BinaryError M
receipt_of (ok (m, pipe)) = got m
receipt_of (err e) = refused e
receipt_of panic = panicked

abbrev pub Connections : Type 0
Connections = List (Accept (Receipt BinaryError ControlClientMessage) BinaryError)

-- Failures of `accept`, and connections whose message was an error.
abbrev pub IsHarmless : Accept (Receipt BinaryError ControlClientMessage) BinaryError → Type 0
IsHarmless (failed e) = Unit
IsHarmless (accepted (refused e)) = Unit
IsHarmless _ = ⊥

StopComes-append :
    (before more : Connections)
    → All IsHarmless before
    → StopComes (before ++ accepted (got stop) ∷ more)
StopComes-append [] more h = here
StopComes-append (failed e ∷ before) more h = past_failure e (StopComes-append before more h.1)
StopComes-append (accepted (refused e) ∷ before) more h =
    past_unreadable e (StopComes-append before more h.1)
StopComes-append (accepted (got m) ∷ before) more h = absurd h.0
StopComes-append (accepted panicked ∷ before) more h = absurd h.0
StopComes-append (accepted waiting ∷ before) more h = absurd h.0

module _ {Config : Type 0} (active : Bool) (from_file : Text → Option Config)
    (serialize : ControlClientMessage → Option (List ℕ))
    (deserialize : List ℕ → Option ControlClientMessage)
    (codec : IsCodec serialize deserialize) where
  -- The command `stop` reaches the server and does not come back. When its message is written to the
  -- control socket without an error, a server to which these bytes come in a connection, before which
  -- there were only failures of `accept` and connections whose message was an error, is told to stop; but
  -- if the reads of the command's own connection come to no error, as when the server closes it, the
  -- command still waits after however many rounds of `wait_for_error`.
  pub stop_lem :
      (fuel : ℕ) (pipe sent : Pipe) (reads : List Read)
      → send_message serialize deserialize stop pipe ≡ ok sent
      → All IsRead reads
      → (wire : List ℕ) × (sent.output ≡ pipe.output ++ wire)
        × ((server : Pipe) (rest : List ℕ) (before more : Connections)
            → server.input ≡ wire ++ rest
            → All IsHarmless before
            → poll (
                listen control_listener
                  (before
                    ++ accepted (receipt_of (recv_message serialize deserialize server)) ∷ more)
                  new_control_handler)
              ≡ some (bytes "Stop command issued"))
        × (head active from_file serialize deserialize fuel (some pipe) reads (other (bytes "stop"))
            ≡ ok (Command.waiting sent))
  unfolding head pre_matches unmatched_command stop_command text_eq
  stop_lem fuel pipe sent reads written quiet =
      let (wire, appended, back) = recv-send serialize deserialize codec stop pipe sent written in
      (
        wire,
        appended,
        λ server rest before more comes harmless. rw (back server rest comes) (
            (poll_iff (before ++ accepted (got stop) ∷ more)).1
              (StopComes-append before more harmless)),
        rw (written, stop_command) (rw (wait_for_error-none fuel reads quiet, stop_command) refl),
      )

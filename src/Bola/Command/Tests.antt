-- ===== src/Bola/Command/Tests.antt =====
-- A client and a server that write the message as one byte.
use mangle_apis.Base.{ℕ, ◌≡◌, refl, true, Option, none, some, List, [], ◌∷◌, ◌++◌, All, arith}
use mangle_apis.Base.Text.{Text, bytes, text_eq}
use mangle_apis.Base.Outcome.{ok, err, panic}
use mangle_apis.Messagist.Bin
use mangle_apis.Messagist.Bin.{Pipe, BinaryError, send_message, recv_message}
use mangle_apis.Messagist.Bin.Frame.{IsCodec}
use mangle_apis.Messagist.Pipes.{accepted, listen}
use mangle_apis.Bola.Control.{
  ControlClientMessage, stop, new_control_handler, control_listener, poll,
}
use mangle_apis.Bola.Command
use mangle_apis.Bola.Command.{
  Subcommand, start, other, server_active, read_bytes, go_on, pre_matches, unmatched_command, head,
}
use mangle_apis.Bola.Command.Laws.{Connections, IsHarmless, receipt_of, stop_lem}

abbrev serialize : ControlClientMessage → Option (List ℕ)
serialize stop = some (0 ∷ [])

abbrev deserialize : List ℕ → Option ControlClientMessage
deserialize (n ∷ []) = some stop
deserialize _ = none

codec : IsCodec serialize deserialize
codec stop buf written = let same : buf ≡ 0 ∷ [] = cc in rw same (refl, omega arith)

abbrev idle : Pipe
idle = record { input = []; output = []; writable = true }

abbrev after : Pipe
after = record idle { output = 1 ∷ 1 ∷ 0 ∷ [] }

abbrev no_file : Text → Option ℕ
no_file path = none

abbrev fuel : ℕ
fuel = 5

stop_sent : send_message serialize deserialize stop idle ≡ ok after
unfolding send_message Bin.write_all Bin.frame Bin.size_field Bin.trim_loop Bin.to_le_bytes
    Bin.resize
stop_sent = refl

-- The command `status`, which `make_app` offers, is not expected by `main`.
status_panics :
    head true no_file serialize deserialize fuel none [] (other (bytes "status")) ≡ panic
unfolding head pre_matches unmatched_command text_eq
status_panics = refl

second_start :
    head true no_file serialize deserialize fuel none [] (start none) ≡ err (server_active none)
unfolding head pre_matches
second_start = refl

stop_example :
    (wire : List ℕ) × (1 ∷ 1 ∷ 0 ∷ [] ≡ wire)
    × ((server : Pipe) (rest : List ℕ) (before more : Connections)
        → server.input ≡ wire ++ rest
        → All IsHarmless before
        → poll (
            listen control_listener
              (before ++ accepted (receipt_of (recv_message serialize deserialize server)) ∷ more)
              new_control_handler)
          ≡ some (bytes "Stop command issued"))
    × (head true no_file serialize deserialize fuel
          (some idle)
          (read_bytes 3 ∷ [])
          (other (bytes "stop"))
        ≡ ok (Command.waiting after))
stop_example =
    stop_lem true no_file serialize deserialize codec fuel idle after (read_bytes 3 ∷ []) stop_sent
      (tt, tt)

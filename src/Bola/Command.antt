-- ===== src/Bola/Command.antt =====
-- The command line of the server: `pre_matches` of mangle-api-core/src/lib.rs, the head of `main` of
-- bola-api/src/main.rs, and `wait_for_error` of messagist/src/bin.rs, in which the command `stop` ends. What
-- clap makes of the arguments is given, and so are the control socket and the configuration file.
mod Laws
mod Tests
use mangle_apis.Base.{
  ℕ, zero, suc, Bool, true, false, Option, none, some, List, [], ◌∷◌, ◌++◌, if◌then◌else◌,
}
use mangle_apis.Base.Text.{Text, bytes, text_eq}
use mangle_apis.Base.Outcome.{Outcome, ok, err, panic, ◌>>=◌}
use mangle_apis.Messagist.Bin.{Pipe, BinaryError, io_error, send_message}
use mangle_apis.Bola.Control.{ControlClientMessage, stop}

-- `matches.subcommand()`; the argument of `start` is the path of a configuration.
pub data Subcommand : Type 0 where
  start : Option Text → Subcommand
  other : Text → Subcommand
  no_command : Subcommand

pub data CommandError : Type 0 where
  -- the message, where one was given for it
  server_active : Option Text → CommandError
  reading_config : Text → CommandError
  no_subcommand : CommandError
  connecting : CommandError
  sending : BinaryError → CommandError

pub data CommandMatchResult (Config : Type 0) : Type 0 where
  start_program : Config → CommandMatchResult Config
  unmatched : Text → CommandMatchResult Config

-- What the reads of a connection come to, in order; after them the connection is closed, and reading
-- succeeds with no bytes.
pub data Read : Type 0 where
  read_bytes : ℕ → Read
  read_error : Read

-- `BinaryMessageStream::wait_for_error`, for so many rounds of its loop.
unfoldable pub wait_for_error : ℕ → List Read → Option BinaryError
wait_for_error zero reads = none
wait_for_error (suc n) [] = wait_for_error n []
wait_for_error (suc n) (read_bytes count ∷ reads) = wait_for_error n reads
wait_for_error (suc n) (read_error ∷ reads) = some io_error

-- `get_pipe_name`, with the value of the environment variable.
unfoldable pub get_pipe_name : Option Text → Text → Text
get_pipe_name none default_pipe_name = default_pipe_name
get_pipe_name (some x) default_pipe_name = x

abbrev pub config_path : Option Text → Text
config_path none = bytes "configs.toml"
config_path (some path) = path

-- The head of `main`: it goes on with a configuration, it returns, or it waits for the server to close
-- the connection. With what was written to the control socket.
pub data Head (Config : Type 0) : Type 0 where
  go_on : Config → Head Config
  stopped : Pipe → Head Config
  waiting : Pipe → Head Config

module _ {Config : Type 0} (active : Bool) (from_file : Text → Option Config) where
  -- `active` is whether somebody listens at the control socket.
  unfoldable pub pre_matches :
      Option Text → Subcommand → Outcome CommandError (CommandMatchResult Config)
  pre_matches on_active_msg (start path) =
      if active then err (server_active on_active_msg) else elim (from_file (config_path path)) [
        | none ↦ err (reading_config (config_path path))
        | some config ↦ ok (start_program config)
      ]
  pre_matches on_active_msg (other name) = ok (unmatched name)
  pre_matches on_active_msg no_command = err no_subcommand

  module _ (serialize : ControlClientMessage → Option (List ℕ))
      (deserialize : List ℕ → Option ControlClientMessage) where
    -- The connection that the command has made, and what its reads will come to.
    unfoldable pub stop_command : ℕ → Option Pipe → List Read → Outcome CommandError (Head Config)
    stop_command fuel none reads = err connecting
    stop_command fuel (some pipe) reads = elim (send_message serialize deserialize stop pipe) [
      | ok sent ↦ elim (wait_for_error fuel reads) [
        | none ↦ ok (waiting sent)
        | some e ↦ ok (stopped sent)
      ]
      | err e ↦ err (sending e)
      | panic ↦ panic
    ]

    unfoldable pub unmatched_command :
        ℕ → Option Pipe → List Read → Text → Outcome CommandError (Head Config)
    unmatched_command fuel connection reads name =
        if text_eq name (bytes "stop") then stop_command fuel connection reads else panic

    unfoldable pub head :
        ℕ → Option Pipe → List Read → Subcommand → Outcome CommandError (Head Config)
    head fuel connection reads command = pre_matches none command >>= λ result. elim result [
      | start_program config ↦ ok (go_on config)
      | unmatched name ↦ unmatched_command fuel connection reads name
    ]

-- ===== src/Bola/Control.antt =====
-- bola-api/src/control.rs: the handler of the control socket, which stops the server. The channel between
-- it and the server (tokio's mpsc, of capacity 1) is given by what is in it and whether its sender is there.
pub mod Laws
mod Tests
use mangle_apis.Base.{
  ℕ, Bool, true, false, Option, none, some, List, [], ◌∷◌, ◌++◌, is_empty, not, ◌||◌, if◌then◌else◌,
}
use mangle_apis.Base.Text.{Text, bytes}
use mangle_apis.Messagist.Text.{Receipt, got, refused, panicked, waiting}
use mangle_apis.Messagist.Pipes.{Handled, returned, waits, panics, ListenerApi}

pub data ControlClientMessage : Type 0 where
  stop : ControlClientMessage

pub record Control (E : Type 0) : Type 0 where
  -- whether there is a message in the channel
  pub full : Bool
  -- the errors of connections and of `accept` that were logged
  pub errors : List E

module _ {E : Type 0} where
  unfoldable pub new_control_handler : Control E
  new_control_handler = record { full = false; errors = [] }

  -- `handle`, with what `recv_message` comes to on the connection. `send` waits while the channel is full.
  unfoldable pub handle : Receipt E ControlClientMessage → Control E → Handled (Control E)
  handle (got stop) control =
      if control.full then waits control else returned (record control { full = true })
  handle (refused e) control = returned (record control { errors = control.errors ++ e ∷ [] })
  handle panicked control = panics control
  handle waiting control = waits control

  unfoldable pub handle_error : E → Control E → Control E
  handle_error e control = record control { errors = control.errors ++ e ∷ [] }

  abbrev pub control_listener : ListenerApi (Control E) (Receipt E ControlClientMessage) E
  control_listener = record { handle = handle; handle_error = handle_error }

  -- `poll` of `ControlHandlerReceiver`: `poll_recv` is also ready when the sender is gone, as it is once
  -- the listening task is over.
  unfoldable pub poll : Control E × Bool → Option Text
  poll (control, listening) =
      if control.full || not listening then some (bytes "Stop command issued") else none

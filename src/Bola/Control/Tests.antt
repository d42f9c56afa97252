-- ===== src/Bola/Control/Tests.antt =====
-- A failure, a connection that cannot be read, then a stop message.
use mangle_apis.Base.{ℕ, ◌≡◌, ◌↔◌, refl, none, some, List, [], ◌∷◌}
use mangle_apis.Base.Text.{bytes}
use mangle_apis.Messagist.Text.{Receipt, got, refused, waiting}
use mangle_apis.Messagist.Pipes.{Accept, accepted, failed, listen}
use mangle_apis.Bola.Control.{
  ControlClientMessage, stop, new_control_handler, handle, handle_error, control_listener, poll,
}
use mangle_apis.Bola.Control.Laws.{StopComes, poll_iff}

abbrev events : List (Accept (Receipt ℕ ControlClientMessage) ℕ)
events = failed 1 ∷ accepted (refused 2) ∷ accepted (got stop) ∷ []

told :
    poll (listen control_listener events new_control_handler) ≡ some (bytes "Stop command issued")
unfolding poll listen handle handle_error new_control_handler
told = refl

-- Behind a silent connection nobody is heard.
not_told :
    poll (listen (control_listener {E = ℕ}) (accepted waiting ∷ events) new_control_handler) ≡ none
unfolding poll listen handle new_control_handler
not_told = refl

poll_iff_example :
    (poll (listen control_listener events new_control_handler) ≡ some (bytes "Stop command issued"))
    ↔ StopComes events
poll_iff_example = poll_iff events

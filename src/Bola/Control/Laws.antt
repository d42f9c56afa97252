-- ===== src/Bola/Control/Laws.antt =====
-- When the server is told to stop.
use mangle_apis.Base.{
  ◌≡◌, ◌↔◌, refl, Bool, true, false, none, some, List, [], ◌∷◌, Bool-cases, inl, inr, not, ◌||◌,
  if◌then◌else◌,
}
use mangle_apis.Base.Text.{bytes}
use mangle_apis.Messagist.Text.{Receipt, got, refused, panicked, waiting}
use mangle_apis.Messagist.Pipes.{Accept, accepted, failed, listen}
use mangle_apis.Bola.Control.{
  ControlClientMessage, stop, Control, new_control_handler, handle, handle_error, control_listener,
  poll,
}

module _ {E : Type 0} where
  -- A connection with a stop message comes, or one whose reading panics, and before it only failures
  -- and connections whose message cannot be read, none that stays silent.
  pub data StopComes : List (Accept (Receipt E ControlClientMessage) E) → Type 0 where
    here :
        {more : List (Accept (Receipt E ControlClientMessage) E)}
        → StopComes (accepted (got stop) ∷ more)
    dies :
        {more : List (Accept (Receipt E ControlClientMessage) E)}
        → StopComes (accepted panicked ∷ more)
    past_failure :
        {more : List (Accept (Receipt E ControlClientMessage) E)} (e : E)
        → StopComes more
        → StopComes (failed e ∷ more)
    past_unreadable :
        {more : List (Accept (Receipt E ControlClientMessage) E)} (e : E)
        → StopComes more
        → StopComes (accepted (refused e) ∷ more)

  -- What `poll` looks at.
  abbrev Told : Control E × Bool → Type 0
  Told (control, listening) = (control.full || not listening) ≡ true

  full_stays :
      (events : List (Accept (Receipt E ControlClientMessage) E)) (control : Control E)
      → control.full ≡ true
      → Told (listen control_listener events control)
  unfolding listen handle handle_error
  full_stays [] control full = rw full refl
  full_stays (failed e ∷ events) control full = full_stays events _ full
  full_stays (accepted (got stop) ∷ events) control full = rw (full, handle) refl
  full_stays (accepted (refused e) ∷ events) control full = full_stays events _ full
  full_stays (accepted panicked ∷ events) control full = rw full refl
  full_stays (accepted waiting ∷ events) control full = rw full refl

  stops :
      (events : List (Accept (Receipt E ControlClientMessage) E)) (control : Control E)
      → StopComes events
      → Told (listen control_listener events control)
  unfolding listen handle handle_error
  stops _ control (here {more}) = elim (Bool-cases control.full) [
    | inl full ↦ rw (full, handle) refl
    | inr empty ↦ rw (empty, handle) (full_stays more _ refl)
  ]
  stops _ control (dies {more}) = elim (Bool-cases control.full) [
    | inl full ↦ rw full refl
    | inr empty ↦ rw empty refl
  ]
  stops _ control (past_failure {more} e h) = stops more _ h
  stops _ control (past_unreadable {more} e h) = stops more _ h

  stopped :
      (events : List (Accept (Receipt E ControlClientMessage) E)) (control : Control E)
      → control.full ≡ false
      → Told (listen control_listener events control)
      → StopComes events
  unfolding listen handle handle_error
  stopped [] control empty told = absurd (idle control.full empty told)
    where
      idle : (full : Bool) → full ≡ false → (full || false) ≡ true → ⊥
      idle true e told = cc
      idle false e told = cc
  stopped (failed e ∷ events) control empty told = past_failure e (stopped events _ empty told)
  stopped (accepted (got stop) ∷ events) control empty told = here
  stopped (accepted (refused e) ∷ events) control empty told =
      past_unreadable e (stopped events _ empty told)
  stopped (accepted panicked ∷ events) control empty told = dies
  stopped (accepted waiting ∷ events) control empty told = absurd (idle control.full empty told)
    where
      idle : (full : Bool) → full ≡ false → (full || false) ≡ true → ⊥
      idle true e told = cc
      idle false e told = cc

  poll-Told :
      (found : Control E × Bool) → (poll found ≡ some (bytes "Stop command issued")) ↔ Told found
  unfolding poll
  poll-Told (control, listening) = by_test (control.full || not listening)
    where
      by_test :
          (b : Bool)
          → ((if b then some (bytes "Stop command issued") else none)
              ≡ some (bytes "Stop command issued"))
            ↔ (b ≡ true)
      by_test true = (λ e. refl, λ e. refl)
      by_test false = (λ e. absurd (cc), λ e. absurd (cc))

  -- The server is told to stop exactly when a stop message has come to the control socket, or a
  -- connection whose reading panics, before which there were only failures of `accept` and connections
  -- whose message was an error: one that stays open and silent keeps all later ones waiting.
  pub poll_iff :
      (events : List (Accept (Receipt E ControlClientMessage) E))
      → (poll (listen control_listener events new_control_handler)
          ≡ some (bytes "Stop command issued"))
        ↔ StopComes events
  unfolding new_control_handler
  poll_iff events =
      let told = poll-Told (listen control_listener events new_control_handler) in
      (
        λ e. stopped events new_control_handler refl (told.0 e),
        λ h. told.1 (stops events new_control_handler h),
      )

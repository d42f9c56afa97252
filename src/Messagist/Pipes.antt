-- ===== src/Messagist/Pipes.antt =====
-- messagist/src/pipes.rs: the task that listens on a local socket and has one connection handled after the
-- other. What `accept` returns, call by call, is given.
use mangle_apis.Base.{Bool, true, false, List, [], ◌∷◌}

-- A connection is given by what its handler makes of it.
pub data Accept (C E : Type 0) : Type 0 where
  accepted : C → Accept C E
  failed : E → Accept C E

-- What a call of `handle` comes to: it returns, it waits for the peer for ever, or it panics.
pub data Handled (H : Type 0) : Type 0 where
  returned : H → Handled H
  waits : H → Handled H
  panics : H → Handled H

-- `ExclusiveMessageHandler` and `ListenerErrorHandler`, on the states of a handler.
pub record ListenerApi (H C E : Type 0) : Type 0 where
  pub handle : C → H → Handled H
  pub handle_error : E → H → H

module _ {H C E : Type 0} (api : ListenerApi H C E) where
  -- The loop: the handler when everything is handled, or while a connection is waited for, and whether
  -- the task is still there, which ends only by a panic.
  unfoldable pub listen : List (Accept C E) → H → H × Bool
  listen [] h = (h, true)
  listen (failed e ∷ more) h = listen more (api.handle_error e h)
  listen (accepted c ∷ more) h = elim (api.handle c h) [
    | returned h' ↦ listen more h'
    | waits h' ↦ (h', true)
    | panics h' ↦ (h', false)
  ]

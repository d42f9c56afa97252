-- ===== src/Core/Siblings.antt =====
-- mangle-api-core/src/distributed.rs: the task of a node that accepts connections of its siblings. What
-- the listener returns, call by call, is given, and so are the look-up of a socket address (crate bimap)
-- and the body of the handler.
mod Laws
mod Tests
use mangle_apis.Base.{Bool, true, false, Option, none, some, List, [], ◌∷◌, ◌++◌}
use mangle_apis.Base.Text.{Text}
use mangle_apis.Core.Api.{SocketAddr}

-- What `accept` returns; with a connection, whether the TLS handshake of its task succeeds, which is so
-- without TLS.
pub data Accepted : Type 0 where
  accept_error : Accepted
  stream : SocketAddr → Bool → Accepted

-- The task: `running` until it returns. Its warnings of unknown addresses, the names of the siblings for
-- which it has spawned a task, and the state of the handler, which its clones share.
pub record Acceptor (H : Type 0) : Type 0 where
  pub running : Bool
  pub warned : List SocketAddr
  pub spawned : List Text
  pub handler : H

-- A future that has not been polled: what its body would make of the handler.
pub data Future (H : Type 0) : Type 0 where
  future : (H → H) → Future H

module _ {H : Type 0} (get_by_right : SocketAddr → Option Text) (handle : Text → H → H) where
  -- `handler2.handle(stream, server_name)`, or the return before it.
  unfoldable pub start_handle : Text → Bool → Option (Future H)
  start_handle server_name true = some (future (handle server_name))
  start_handle server_name false = none

  -- The end of the match: the future is dropped, and a body that is not polled does nothing.
  unfoldable pub drop_future : Option (Future H) → H → H
  drop_future unpolled handler = handler

  unfoldable pub spawn : Text → Bool → Acceptor H → Acceptor H
  spawn server_name tls acceptor = record acceptor {
    spawned = acceptor.spawned ++ server_name ∷ [];
    handler = drop_future (start_handle server_name tls) acceptor.handler;
  }

  unfoldable pub accept_loop : List Accepted → Acceptor H → Acceptor H
  accept_loop [] acceptor = acceptor
  accept_loop (accept_error ∷ more) acceptor = accept_loop more acceptor
  accept_loop (stream addr tls ∷ more) acceptor = elim (get_by_right addr) [
    | none ↦ record acceptor { running = false; warned = acceptor.warned ++ addr ∷ [] }
    | some connection_domain ↦ accept_loop more (spawn connection_domain tls acceptor)
  ]

-- ===== src/Core/Tls.antt =====
-- mangle-api-core/src/tls.rs: the acceptor of TLS connections, poll by poll. What polling the listener and
-- each handshake comes to is given; where the lists end, polling stays pending.
mod Laws
mod Tests
use mangle_apis.Base.{ℕ, zero, suc, Bool, true, false, Option, none, some, List, [], ◌∷◌, ◌++◌}

pub data HandshakePoll : Type 0 where
  not_done : HandshakePoll
  done : HandshakePoll
  failed : HandshakePoll

-- A connection, named by a number, and what each poll of its handshake comes to.
pub record AddrStream : Type 0 where
  pub id : ℕ
  pub polls : List HandshakePoll

-- What `AddrIncoming::poll_accept` comes to.
pub data IncomingPoll : Type 0 where
  nothing_yet : IncomingPoll
  closed : IncomingPoll
  accept_error : IncomingPoll
  accepted : AddrStream → IncomingPoll

pub record TlsAcceptor : Type 0 where
  pub incoming : List IncomingPoll
  pub acceptor_loop : Option AddrStream

-- What `poll_accept` returns: a stream that is named, the end, or pending, with whether a poll below it has
-- been pending too, so that it will be woken.
pub data Poll : Type 0 where
  ready : ℕ → Poll
  ready_none : Poll
  pending : Bool → Poll

-- The poll of the handshake in `acceptor_loop`; the last argument is what comes after its failure.
unfoldable pub poll_handshake :
    ℕ → List HandshakePoll → List IncomingPoll → TlsAcceptor × Poll → TlsAcceptor × Poll
poll_handshake id [] incoming next = (
  record { incoming = incoming; acceptor_loop = some (record { id = id; polls = [] }) },
  pending true,
)
poll_handshake id (not_done ∷ polls) incoming next = (
  record { incoming = incoming; acceptor_loop = some (record { id = id; polls = polls }) },
  pending true,
)
poll_handshake id (done ∷ polls) incoming next =
    (record { incoming = incoming; acceptor_loop = none }, ready id)
poll_handshake id (failed ∷ polls) incoming next = next

-- `poll_accept` without a handshake, from the poll of the listener on. It calls itself with a handshake
-- for each stream.
unfoldable pub poll_incoming : List IncomingPoll → TlsAcceptor × Poll
poll_incoming [] = (record { incoming = []; acceptor_loop = none }, pending true)
poll_incoming (nothing_yet ∷ incoming) =
    (record { incoming = incoming; acceptor_loop = none }, pending true)
poll_incoming (closed ∷ incoming) =
    (record { incoming = incoming; acceptor_loop = none }, ready_none)
poll_incoming (accept_error ∷ incoming) =
    (record { incoming = incoming; acceptor_loop = none }, pending false)
poll_incoming (accepted stream ∷ incoming) =
    let next = poll_incoming incoming in poll_handshake stream.id stream.polls incoming next

unfoldable pub poll_accept : TlsAcceptor → TlsAcceptor × Poll
poll_accept acceptor = elim acceptor.acceptor_loop [
  | none ↦ poll_incoming acceptor.incoming
  | some stream ↦
      poll_handshake stream.id stream.polls acceptor.incoming (poll_incoming acceptor.incoming)
]

-- The stream that a poll hands out.
abbrev pub handed_out : Poll → List ℕ
handed_out (ready id) = id ∷ []
handed_out ready_none = []
handed_out (pending woken) = []

-- The server polls so often: the streams that it is handed.
unfoldable pub poll_times : ℕ → TlsAcceptor → TlsAcceptor × List ℕ
poll_times zero acceptor = (acceptor, [])
poll_times (suc n) acceptor =
    let (acceptor', found) = poll_accept acceptor in
    let (last, more) = poll_times n acceptor' in (last, handed_out found ++ more)

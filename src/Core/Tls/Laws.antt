-- ===== src/Core/Tls/Laws.antt =====
-- Which connections are handed out by the acceptor of tls.rs, and in which order.
use mangle_apis.Base.{
  ℕ, zero, suc, ◌≡◌, refl, sym, ap, ◌∙◌, Option, none, some, List, [], ◌∷◌, ◌++◌, append_assoc,
  Option-cases, inl, inr,
}
use mangle_apis.Core.Tls.{
  HandshakePoll, not_done, done, failed, AddrStream, IncomingPoll, nothing_yet, closed,
  accept_error, accepted, TlsAcceptor, Poll, poll_handshake, poll_incoming, poll_accept, handed_out,
  poll_times,
}

-- The streams whose handshakes will be done, in the order in which they have come.
abbrev pub will_be_done : ℕ → List HandshakePoll → List ℕ
will_be_done id [] = []
will_be_done id (not_done ∷ polls) = will_be_done id polls
will_be_done id (done ∷ polls) = id ∷ []
will_be_done id (failed ∷ polls) = []

abbrev pub coming : List IncomingPoll → List ℕ
coming [] = []
coming (accepted stream ∷ incoming) = will_be_done stream.id stream.polls ++ coming incoming
coming (nothing_yet ∷ incoming) = coming incoming
coming (closed ∷ incoming) = coming incoming
coming (accept_error ∷ incoming) = coming incoming

abbrev pub in_handshake : Option AddrStream → List ℕ
in_handshake none = []
in_handshake (some stream) = will_be_done stream.id stream.polls

abbrev pub owed : TlsAcceptor → List ℕ
owed acceptor = in_handshake acceptor.acceptor_loop ++ coming acceptor.incoming

abbrev Conserved : List ℕ → TlsAcceptor × Poll → Type 0
Conserved ids (after, found) = ids ≡ handed_out found ++ owed after

poll_handshake-Conserved :
    (id : ℕ) (polls : List HandshakePoll) (incoming : List IncomingPoll) (next : TlsAcceptor × Poll)
    → Conserved (coming incoming) next
    → Conserved (will_be_done id polls ++ coming incoming) (poll_handshake id polls incoming next)
unfolding poll_handshake
poll_handshake-Conserved id [] incoming next h = refl
poll_handshake-Conserved id (not_done ∷ polls) incoming next h = refl
poll_handshake-Conserved id (done ∷ polls) incoming next h = refl
poll_handshake-Conserved id (failed ∷ polls) incoming next h = h

poll_incoming-Conserved :
    (incoming : List IncomingPoll) → Conserved (coming incoming) (poll_incoming incoming)
unfolding poll_incoming
poll_incoming-Conserved [] = refl
poll_incoming-Conserved (nothing_yet ∷ incoming) = refl
poll_incoming-Conserved (closed ∷ incoming) = refl
poll_incoming-Conserved (accept_error ∷ incoming) = refl
poll_incoming-Conserved (accepted stream ∷ incoming) =
    poll_handshake-Conserved stream.id stream.polls incoming (poll_incoming incoming)
      (poll_incoming-Conserved incoming)

poll_accept-Conserved : (acceptor : TlsAcceptor) → Conserved (owed acceptor) (poll_accept acceptor)
unfolding poll_accept
poll_accept-Conserved acceptor = elim (Option-cases acceptor.acceptor_loop) [
  | inl idle ↦ rw (idle, poll_accept) (poll_incoming-Conserved acceptor.incoming)
  | inr (stream, busy) ↦
      rw (busy, poll_accept)
        (poll_handshake-Conserved stream.id stream.polls acceptor.incoming
          (poll_incoming acceptor.incoming) (poll_incoming-Conserved acceptor.incoming))
]

-- However often the acceptor is polled, what it has handed out and what it still owes, in this order, are
-- the connections whose handshakes will be done, in the order in which they came: none is lost, handed
-- out twice or overtaken, whatever handshakes and calls of `accept` fail in between.
pub poll_times-owed :
    (n : ℕ) (acceptor : TlsAcceptor)
    → let (after, handed) = poll_times n acceptor in owed acceptor ≡ handed ++ owed after
unfolding poll_times
poll_times-owed zero acceptor = refl
poll_times-owed (suc n) acceptor =
    let (next, found) = poll_accept acceptor in
    poll_accept-Conserved acceptor
    ∙ ap (λ l. handed_out found ++ l) (poll_times-owed n next)
    ∙ sym (append_assoc (handed_out found) (poll_times n next).1 (owed (poll_times n next).0))

-- Handshakes are done one at a time: while a peer leaves its handshake open and silent, no number of
-- polls hands out anything, or takes another connection, whoever else connects.
pub silent_handshake :
    (n id : ℕ) (incoming : List IncomingPoll)
    → let busy : TlsAcceptor = record {
      incoming = incoming;
      acceptor_loop = some (record { id = id; polls = [] });
    } in
      poll_times n busy ≡ (busy, [])
unfolding poll_times poll_accept poll_handshake
silent_handshake zero id incoming = refl
silent_handshake (suc n) id incoming = rw (silent_handshake n id incoming) refl

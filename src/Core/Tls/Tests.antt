-- ===== src/Core/Tls/Tests.antt =====
-- A failed handshake, a slow one, and an error of `accept` between them.
use mangle_apis.Base.{ℕ, ◌≡◌, refl, none, [], ◌∷◌, ◌++◌}
use mangle_apis.Core.Tls.{
  not_done, done, failed, accept_error, accepted, TlsAcceptor, poll_handshake, poll_incoming,
  poll_accept, poll_times,
}
use mangle_apis.Core.Tls.Laws.{owed, poll_times-owed}

abbrev acceptor : TlsAcceptor
acceptor = record {
  incoming =
      accepted (record { id = 1; polls = failed ∷ [] })
      ∷ accept_error
      ∷ accepted (record { id = 2; polls = not_done ∷ done ∷ [] })
      ∷ [];
  acceptor_loop = none;
}

second_handed_out : (poll_times 3 acceptor).1 ≡ 2 ∷ []
unfolding poll_times poll_accept poll_incoming poll_handshake
second_handed_out = refl

poll_times-owed_example :
    owed acceptor ≡ (poll_times 2 acceptor).1 ++ owed (poll_times 2 acceptor).0
poll_times-owed_example = poll_times-owed 2 acceptor

abbrev seven : ℕ
seven = 7

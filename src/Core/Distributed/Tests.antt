-- ===== src/Core/Distributed/Tests.antt =====
-- A node with two siblings, of which one does not answer; errors are numbers.
use mangle_apis.Base.{ℕ, ◌≡◌, refl, true, [], ◌∷◌, if◌then◌else◌}
use mangle_apis.Base.Text.{bytes, text_eq}
use mangle_apis.Core.Distributed.{done, failed, Network, Node, broadcast_message}
use mangle_apis.Core.Distributed.Laws.{reached, failures, broadcast_message_lem}

abbrev network : Network ℕ
network = record {
  connect = λ domain. if text_eq domain (bytes "b.x") then failed 111 else done;
  tls_connect = λ domain. done;
  send = λ domain. done;
}

abbrev seven : ℕ
seven = 7

abbrev node : Node ℕ
node = record { sibling_domains = bytes "a.x" ∷ bytes "b.x" ∷ []; encrypted = true; sent = [] }

one_failed : failures network true (bytes "a.x" ∷ bytes "b.x" ∷ []) ≡ (bytes "b.x", 111) ∷ []
unfolding failures text_eq
one_failed = refl

broadcast_message_lem_example : broadcast_message network seven node ≡ (
  record node { sent = reached network seven true (bytes "a.x" ∷ bytes "b.x" ∷ []) },
  failures network true (bytes "a.x" ∷ bytes "b.x" ∷ []),
)
broadcast_message_lem_example = broadcast_message_lem network seven node

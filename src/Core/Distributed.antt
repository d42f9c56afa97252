-- ===== src/Core/Distributed.antt =====
-- mangle-api-core/src/distributed.rs: the messages of a node to its siblings. What the network answers
-- for a domain is given, call by call; the messages that were sent are recorded. The task that accepts
-- siblings is not here.
mod Laws
mod Tests
use mangle_apis.Base.{Bool, true, false, List, [], ◌∷◌, ◌++◌, if◌then◌else◌}
use mangle_apis.Base.Text.{Text, text_eq}

-- What a call that the network answers returns.
pub data Answer (E : Type 0) : Type 0 where
  done : Answer E
  failed : E → Answer E

-- An `anyhow::Error` of `send_message`.
pub data SendError (E : Type 0) : Type 0 where
  not_sibling : SendError E
  network_error : E → SendError E

-- `TcpStream::connect`, `TlsConnector::connect` and `BinaryMessageStream::send_message` for a domain.
pub record Network (E : Type 0) : Type 0 where
  pub connect : Text → Answer E
  pub tls_connect : Text → Answer E
  pub send : Text → Answer E

-- What `Node` needs for sending; `encrypted` is whether there is a `tls_builder`.
pub record Node (M : Type 0) : Type 0 where
  pub sibling_domains : List Text
  pub encrypted : Bool
  pub sent : List (Text × M)

unfoldable pub contains_left : Text → List Text → Bool
contains_left domain [] = false
contains_left domain (sibling ∷ siblings) =
    if text_eq sibling domain then true else contains_left domain siblings

module _ {M E : Type 0} (network : Network E) where
  -- Sending on an open stream.
  unfoldable pub send_on : Text → M → Node M → Node M × Answer E
  send_on domain message node = elim (network.send domain) [
    | done ↦ (record node { sent = node.sent ++ (domain, message) ∷ [] }, done)
    | failed e ↦ (node, failed e)
  ]

  -- The match on `tls_builder`.
  unfoldable pub send_over : Text → M → Node M → Node M × Answer E
  send_over domain message node =
      if node.encrypted
      then elim (network.tls_connect domain) [
        | done ↦ send_on domain message node
        | failed e ↦ (node, failed e)
      ]
      else send_on domain message node

  abbrev pub as_result : Node M × Answer E → Node M × Answer (SendError E)
  as_result (node, done) = (node, done)
  as_result (node, failed e) = (node, failed (network_error e))

  unfoldable pub send_message : Text → M → Node M → Node M × Answer (SendError E)
  send_message domain message node =
      if contains_left domain node.sibling_domains
      then elim (network.connect domain) [
        | done ↦ as_result (send_over domain message node)
        | failed e ↦ (node, failed (network_error e))
      ]
      else (node, failed not_sibling)

  -- `results.push(…)` for an answer that is an error.
  abbrev pub report : Text → List (Text × E) → Node M × Answer E → Node M × List (Text × E)
  report domain results (node, done) = (node, results)
  report domain results (node, failed e) = (node, results ++ (domain, e) ∷ [])

  -- One round of the loop of `broadcast_message`.
  unfoldable pub deliver : M → Text → Node M → List (Text × E) → Node M × List (Text × E)
  deliver message domain node results = elim (network.connect domain) [
    | done ↦ report domain results (send_over domain message node)
    | failed e ↦ (node, results ++ (domain, e) ∷ [])
  ]

  unfoldable pub deliver_all : M → List Text → Node M → List (Text × E) → Node M × List (Text × E)
  deliver_all message [] node results = (node, results)
  deliver_all message (domain ∷ domains) node results =
      let after = deliver message domain node results in deliver_all message domains after.0 after.1

  unfoldable pub broadcast_message : M → Node M → Node M × List (Text × E)
  broadcast_message message node = deliver_all message node.sibling_domains node []

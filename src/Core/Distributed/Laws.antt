-- ===== src/Core/Distributed/Laws.antt =====
-- Sending to a sibling and broadcasting, compared with what the network answers for each domain.
use mangle_apis.Base.{
  ◌≡◌, refl, ap, ◌∙◌, Bool, true, false, List, [], ◌∷◌, ◌++◌, if◌then◌else◌, Bool-cases, inl, inr,
  ◌⊎◌, append-nil, append_assoc,
}
use mangle_apis.Base.Text.{Text}
use mangle_apis.Core.Distributed.{
  Answer, done, failed, not_sibling, Network, Node, contains_left, send_on, send_over, as_result,
  send_message, report, deliver, deliver_all, broadcast_message,
}

-- The first error on the way to a domain, or that there is none.
abbrev pub then_try : {E : Type 0} → Answer E → Answer E → Answer E
then_try done next = next
then_try (failed e) next = failed e

Answer-cases : {E : Type 0} (a : Answer E) → (a ≡ done) ⊎ ((e : E) × (a ≡ failed e))
Answer-cases done = inl refl
Answer-cases (failed e) = inr (e, refl)

abbrev pub if_reached : {M E : Type 0} → Text → M → Answer E → List (Text × M)
if_reached domain message done = (domain, message) ∷ []
if_reached domain message (failed e) = []

abbrev pub if_failed : {E : Type 0} → Text → Answer E → List (Text × E)
if_failed domain done = []
if_failed domain (failed e) = (domain, e) ∷ []

module _ {E : Type 0} (network : Network E) where
  abbrev pub verdict : Bool → Text → Answer E
  verdict true domain =
      then_try (network.connect domain)
        (then_try (network.tls_connect domain) (network.send domain))
  verdict false domain = then_try (network.connect domain) (network.send domain)

  -- The errors, in the order of the domains.
  unfoldable pub failures : Bool → List Text → List (Text × E)
  failures encrypted [] = []
  failures encrypted (domain ∷ domains) =
      if_failed domain (verdict encrypted domain) ++ failures encrypted domains

  module _ {M : Type 0} (message : M) where
    -- What is sent.
    unfoldable pub reached : Bool → List Text → List (Text × M)
    reached encrypted [] = []
    reached encrypted (domain ∷ domains) =
        if_reached domain message (verdict encrypted domain) ++ reached encrypted domains

    send_on_lem :
        (domain : Text) (siblings : List Text) (encrypted : Bool) (log : List (Text × M))
        → let node : Node M = record {
          sibling_domains = siblings;
          encrypted = encrypted;
          sent = log;
        } in
          send_on network domain message node ≡ (
            record node { sent = log ++ if_reached domain message (network.send domain) },
            network.send domain,
          )
    unfolding send_on
    send_on_lem domain siblings encrypted log = elim (Answer-cases (network.send domain)) [
      | inl fine ↦ rw (fine, send_on) refl
      | inr (e, bad) ↦ rw (bad, send_on) (rw (append-nil log) refl)
    ]

    abbrev after_connect : Bool → Text → Answer E
    after_connect true domain = then_try (network.tls_connect domain) (network.send domain)
    after_connect false domain = network.send domain

    send_over_lem :
        (domain : Text) (siblings : List Text) (encrypted : Bool) (log : List (Text × M))
        → let node : Node M = record {
          sibling_domains = siblings;
          encrypted = encrypted;
          sent = log;
        } in
          send_over network domain message node ≡ (
            record node {
              sent = log ++ if_reached domain message (after_connect encrypted domain);
            },
            after_connect encrypted domain,
          )
    unfolding send_over
    send_over_lem domain siblings false log = send_on_lem domain siblings false log
    send_over_lem domain siblings true log = elim (Answer-cases (network.tls_connect domain)) [
      | inl fine ↦ rw (fine, send_over) (send_on_lem domain siblings true log)
      | inr (e, bad) ↦ rw (bad, send_over) (rw (append-nil log) refl)
    ]

    verdict_lem :
        (encrypted : Bool) (domain : Text)
        → verdict encrypted domain
          ≡ then_try (network.connect domain) (after_connect encrypted domain)
    verdict_lem true domain = refl
    verdict_lem false domain = refl

    reported :
        (domain : Text) (results : List (Text × E)) (node : Node M) (answer : Answer E)
        → report network domain results (node, answer) ≡ (node, results ++ if_failed domain answer)
    reported domain results node done = rw (append-nil results) refl
    reported domain results node (failed e) = refl

    deliver_lem :
        (domain : Text) (siblings : List Text) (encrypted : Bool) (log : List (Text × M))
        (results : List (Text × E))
        → let node : Node M = record {
          sibling_domains = siblings;
          encrypted = encrypted;
          sent = log;
        } in
          deliver network message domain node results ≡ (
            record node { sent = log ++ if_reached domain message (verdict encrypted domain) },
            results ++ if_failed domain (verdict encrypted domain),
          )
    unfolding deliver
    deliver_lem domain siblings encrypted log results =
        elim (Answer-cases (network.connect domain)) [
          | inl fine ↦
              rw (verdict_lem encrypted domain, fine, deliver)
                (ap (report network domain results) (send_over_lem domain siblings encrypted log)
                  ∙ reported domain results _ (after_connect encrypted domain))
          | inr (e, bad) ↦
              rw (verdict_lem encrypted domain, bad, deliver) (rw (append-nil log) refl)
        ]

    deliver_all_lem :
        (domains siblings : List Text) (encrypted : Bool) (log : List (Text × M))
        (results : List (Text × E))
        → let node : Node M = record {
          sibling_domains = siblings;
          encrypted = encrypted;
          sent = log;
        } in
          deliver_all network message domains node results ≡ (
            record node { sent = log ++ reached encrypted domains },
            results ++ failures encrypted domains,
          )
    unfolding deliver_all reached failures
    deliver_all_lem [] siblings encrypted log results = rw (append-nil log, append-nil results) refl
    deliver_all_lem (domain ∷ domains) siblings encrypted log results =
        rw (deliver_lem domain siblings encrypted log results) (
          rw
            (
              ← append_assoc log (if_reached domain message (verdict encrypted domain))
                  (reached encrypted domains),
              ← append_assoc results (if_failed domain (verdict encrypted domain))
                  (failures encrypted domains),
            )
            (deliver_all_lem domains siblings encrypted
              (log ++ if_reached domain message (verdict encrypted domain))
              (results ++ if_failed domain (verdict encrypted domain))))

    -- A broadcast tries every sibling, whatever happened with those before: the message is sent to exactly
    -- the siblings for which connecting, TLS where it is in use, and sending are all without an error, and
    -- the result has exactly the others, each with its first error, in the order of the siblings.
    pub broadcast_message_lem :
        (node : Node M)
        → broadcast_message network message node ≡ (
          record node { sent = node.sent ++ reached node.encrypted node.sibling_domains },
          failures node.encrypted node.sibling_domains,
        )
    unfolding broadcast_message
    broadcast_message_lem node =
        deliver_all_lem node.sibling_domains node.sibling_domains node.encrypted node.sent []

    -- A message to one domain is refused without a try if the domain is no sibling; otherwise it is sent,
    -- or not, by the same verdict as in a broadcast, and answered with the first error.
    pub send_message_lem :
        (domain : Text) (node : Node M)
        → send_message network domain message node ≡ (
            if contains_left domain node.sibling_domains
            then as_result network (
              record node {
                sent = node.sent ++ if_reached domain message (verdict node.encrypted domain);
              },
              verdict node.encrypted domain,
            )
            else (node, failed not_sibling))
    unfolding send_message
    send_message_lem domain node = elim (Bool-cases (contains_left domain node.sibling_domains)) [
      | inr stranger ↦ rw (stranger, send_message) refl
      | inl sibling ↦ elim (Answer-cases (network.connect domain)) [
        | inl fine ↦
            rw (sibling, send_message)
              (rw (verdict_lem node.encrypted domain, fine, send_message)
                (ap (as_result network)
                  (send_over_lem domain node.sibling_domains node.encrypted node.sent)))
        | inr (e, bad) ↦
            rw (sibling, send_message)
              (rw (verdict_lem node.encrypted domain, bad, send_message)
                (rw (append-nil node.sent) refl))
      ]
    ]

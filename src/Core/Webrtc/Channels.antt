-- ===== src/Core/Webrtc/Channels.antt =====
-- The loop of webrtc.rs that sends the offers, on the channels of a room.
use mangle_apis.Base.{
  ℕ, suc, ◌≤◌, ◌≡◌, refl, ap, ap₂, ◌∙◌, true, false, List, [], ◌∷◌, ◌++◌, map, length, ◌⊎◌, inl,
  inr, length-append, arith,
}
use mangle_apis.Base.Text.{Text}
use mangle_apis.Core.Webrtc.{
  SdpOfferStream, MpscApi, Sending, sent, waits, closed, Finding, received, empty, disconnected,
  delivered, Delivery, offer_stream, deliver,
}

pub Sending-cases :
    {C : Type 0} (s : Sending C) → ((c : C) × (s ≡ sent c)) ⊎ (s ≡ waits) ⊎ (s ≡ closed)
Sending-cases (sent c) = inl (c, refl)
Sending-cases waits = inr (inl refl)
Sending-cases closed = inr (inr refl)

Finding-cases :
    {A C : Type 0} (f : Finding A C)
    → ((a : A) × (c : C) × (f ≡ received a c)) ⊎ (f ≡ empty) ⊎ (f ≡ disconnected)
Finding-cases (received a c) = inl (a, c, refl)
Finding-cases empty = inr (inl refl)
Finding-cases disconnected = inr (inr refl)

module _ (T : MpscApi SdpOfferStream) where
  -- The channels of a room whose members all still listen: each has the room's size as its capacity, and
  -- no more in it than there are members who came later.
  abbrev pub Listening : ℕ → List T.Channel → Type 0
  Listening size [] = Unit
  Listening size (peer ∷ peers) =
      (T.capacity peer ≡ size)
      × (T.has_receiver peer ≡ true)
      × (length (T.queued peer) ≤ length peers)
      × Listening size peers

  -- What is in the channels after an offer for each, with the index of the member.
  unfoldable pub with_offers :
      ℕ → List Text → List (List SdpOfferStream) → List (List SdpOfferStream)
  with_offers index [] queues = queues
  with_offers index (offer ∷ offers) [] = []
  with_offers index (offer ∷ offers) (queue ∷ queues) =
      (queue ++ offer_stream offer index ∷ []) ∷ with_offers (suc index) offers queues

  -- The offers are all sent, and there is room for one more member.
  abbrev pub Sent : ℕ → ℕ → List Text → List T.Channel → List T.Channel × Delivery → Type 0
  Sent size index offers peers result =
      (result.1 ≡ delivered)
      × (length result.0 ≡ length peers)
      × (map T.queued result.0 ≡ with_offers index offers (map T.queued peers))
      × ((newcomer : T.Channel)
          → T.capacity newcomer ≡ size
          → T.has_receiver newcomer ≡ true
          → T.queued newcomer ≡ []
          → Listening size (result.0 ++ newcomer ∷ []))

  pub deliver_lem :
      (size index : ℕ) (offers : List Text) (peers : List T.Channel)
      → length offers ≡ length peers
      → length peers ≤ size
      → Listening size peers
      → Sent size index offers peers (deliver T index offers peers)
  unfolding deliver with_offers
  deliver_lem size index [] [] same fits here =
      (refl, refl, refl, λ newcomer c r q. (c, r, rw q (omega arith), tt))
  deliver_lem size index [] (peer ∷ peers) same fits here = absurd (omega arith)
  deliver_lem size index (offer ∷ offers) [] same fits here = absurd (omega arith)
  deliver_lem size index (offer ∷ offers) (peer ∷ peers) same fits (c, r, q, rest) =
      let (peer', done, queue, capacity, receiver) =
        T.send_lem peer (offer_stream offer index) r (rw c (omega arith)) in
      let (ending, count, queues, ready) =
        deliver_lem size (suc index) offers peers (omega arith) (omega arith) rest in
      rw (done, deliver)
        (
          ending,
          ap suc count,
          ap₂ (◌∷◌) queue queues,
          λ newcomer nc nr nq. (
            capacity ∙ c,
            receiver,
            one_more peer' newcomer (deliver T (suc index) offers peers).0 queue count,
            ready newcomer nc nr nq,
          ),
        )
    where
      one_more :
          (peer' newcomer : T.Channel) (after : List T.Channel)
          → T.queued peer' ≡ T.queued peer ++ offer_stream offer index ∷ []
          → length after ≡ length peers
          → length (T.queued peer') ≤ length (after ++ newcomer ∷ [])
      one_more peer' newcomer after queue count = rw queue (
          omega (
            arith,
            length-append after (newcomer ∷ []),
            length-append (T.queued peer) (offer_stream offer index ∷ []),
          ))

  -- Of the members, one does not listen any more.
  abbrev pub SomeoneLeft : List T.Channel → Type 0
  SomeoneLeft peers =
      (before after : List T.Channel) × (peer : T.Channel) × (peers ≡ before ++ peer ∷ after)
      × (T.has_receiver peer ≡ false)

  pub deliver-left :
      (index : ℕ) (offers : List Text) (before after : List T.Channel) (peer : T.Channel)
      → length offers ≡ length (before ++ peer ∷ after)
      → T.has_receiver peer ≡ false
      → (deliver T index offers (before ++ peer ∷ after)).1 ≡ delivered
      → ⊥
  unfolding deliver
  deliver-left index [] [] after peer same gone = absurd (omega arith)
  deliver-left index [] (first ∷ before) after peer same gone = absurd (omega arith)
  deliver-left index (offer ∷ offers) [] after peer same gone =
      rw (T.send-closed peer (offer_stream offer index) gone, deliver) (cc)
  deliver-left index (offer ∷ offers) (first ∷ before) after peer same gone =
      elim (Sending-cases (T.send first (offer_stream offer index))) [
        | inl (first', done) ↦
            rw (done, deliver)
              (deliver-left (suc index) offers before after peer (omega arith) gone)
        | inr (inl full) ↦ rw (full, deliver) (cc)
        | inr (inr gone') ↦ rw (gone', deliver) (cc)
      ]

-- ===== src/Core/Webrtc/Calls.antt =====
-- What each call of the session manager of webrtc.rs does with a room whose members all listen.
use mangle_apis.Base.{
  ℕ, suc, ◌≤◌, ◌<◌, ◌≡◌, refl, Bool, true, none, some, List, [], ◌∷◌, ◌++◌, map, length,
  length-append, Option-cases, Bool-cases, inl, inr, arith, ==_iff,
}
use mangle_apis.Base.Text.{Text}
use mangle_apis.Base.Map.{MapApi}
use mangle_apis.Base.Outcome.{ok, err}
use mangle_apis.Core.Webrtc.{
  SdpOfferStream, MpscApi, WebRtcSession, not_found, SdpOfferStreamSender, joined, indices, deliver,
  host_session, join_session, check_session, push_peer, send_sdp_offers,
}
use mangle_apis.Core.Webrtc.Channels.{Listening, with_offers, deliver_lem}

module _ (T : MpscApi SdpOfferStream) where
  -- Nobody is above the room's size, everybody listens, and no channel can be full.
  abbrev pub RoomOk : WebRtcSession T.Channel → Type 0
  RoomOk session =
      (length session.peers ≤ session.max_size) × Listening T session.max_size session.peers

  module _ {K : Type 0} (P : MapApi K (WebRtcSession T.Channel)) where
    -- What `join_session` returns.
    abbrev pub sender_of : K → WebRtcSession T.Channel → SdpOfferStreamSender K
    sender_of id session = record {
      ref_mut = id;
      member_count = length session.peers;
      max_size = session.max_size;
    }

    pub join_session-none :
        (id : K) (sessions : P.Map)
        → P.get sessions id ≡ none
        → join_session T P id sessions ≡ err not_found
    unfolding join_session check_session
    join_session-none id sessions gone = rw (gone, check_session) refl

    -- Sending the offers in a room whose members all listen, and which is not above its size.
    pub send_sdp_offers_lem :
        (id : K) (sessions : P.Map) (session : WebRtcSession T.Channel) (offers : List Text)
        → P.get sessions id ≡ some session
        → RoomOk session
        → 0 < session.max_size
        → length offers ≡ length session.peers
        → let sender : SdpOfferStreamSender K = sender_of id session in
          (newcomer : T.Channel) × (peers : List T.Channel) × (send_sdp_offers T P sender offers
              sessions
            ≡ (
              P.insert sessions id (record session { peers = peers ++ newcomer ∷ [] }),
              joined (indices T 0 peers),
            ))
          × (length peers ≡ length session.peers)
          × (map T.queued peers ≡ with_offers T 0 offers (map T.queued session.peers))
          × (T.queued newcomer ≡ [])
          × (length (peers ++ newcomer ∷ []) ≡ suc (length session.peers))
          × Listening T session.max_size (peers ++ newcomer ∷ [])
    unfolding send_sdp_offers push_peer
    send_sdp_offers_lem id sessions session offers there (fits, listening) room same =
        let (ending, count, queues, ready) =
          deliver_lem T session.max_size 0 offers session.peers same fits listening in
        let (newcomer, made) = T.channel-some session.max_size room in
        let (new_queue, new_capacity, new_receiver, _) =
          T.channel_lem session.max_size newcomer made in
        (
          newcomer,
          (deliver T 0 offers session.peers).0,
          rw ((==_iff (length offers) (length session.peers)).1 same, send_sdp_offers)
              (rw (there, send_sdp_offers)
                (rw (ending, send_sdp_offers) (rw (made, push_peer) refl))),
          count,
          queues,
          new_queue,
          omega (arith, length-append (deliver T 0 offers session.peers).0 (newcomer ∷ [])),
          ready newcomer new_capacity new_receiver new_queue,
        )

    -- What a successful `host_session` has found and made.
    pub host_session-ok :
        (broadcast_accepts : ℕ → Bool) (id : K) (max_size : ℕ) (before after : P.Map)
        → host_session T P broadcast_accepts id max_size before ≡ ok after
        → (channel : T.Channel) × (T.channel max_size ≡ some channel)
          × (broadcast_accepts 0 ≡ true)
          × (after ≡ P.insert before id (record { peers = channel ∷ []; max_size = max_size }))
    unfolding host_session
    host_session-ok broadcast_accepts id max_size before after =
        elim (Option-cases (P.get before id)) [
          | inr (session, there) ↦ rw (there, host_session) (λ fine. absurd (cc))
          | inl vacant ↦ elim (Option-cases (T.channel max_size)) [
            | inl none_made ↦
                rw (vacant, host_session) (rw (none_made, host_session) (λ fine. absurd (cc)))
            | inr (channel, made) ↦ elim (Bool-cases (broadcast_accepts 0)) [
              | inr panics ↦
                  rw (vacant, host_session)
                    (rw (made, host_session) (rw (panics, host_session) (λ fine. absurd (cc))))
              | inl accepts ↦
                  rw (vacant, host_session)
                    (rw (made, host_session)
                      (rw (accepts, host_session) (λ fine. (channel, refl, refl, cc))))
            ]
          ]
        ]

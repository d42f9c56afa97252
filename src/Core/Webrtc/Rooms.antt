-- ===== src/Core/Webrtc/Rooms.antt =====
-- The session manager of webrtc.rs as its calls interleave. A call of `join_session` is two steps, since it
-- gives the entry back between its blocks, and sending the offers is a third. The locks of the map are left
-- out, so that more orders are possible here than in the program.
use mathlib.Core.List.{Memᴰ}
use mangle_apis.Base.{ℕ, ◌≡◌, Bool, some, List, [], ◌∷◌}
use mangle_apis.Base.Text.{Text}
use mangle_apis.Base.Map.{MapApi}
use mangle_apis.Base.Outcome.{ok}
use mangle_apis.Core.Webrtc.{
  SdpOfferStream, MpscApi, WebRtcSession, SdpOfferStreamSender, recv_at, host_session,
  check_session, take_session, send_sdp_offers, drop_host,
}

module _ (T : MpscApi SdpOfferStream) {K : Type 0} (P : MapApi K (WebRtcSession T.Channel)) where
  -- The sessions, who has passed the check of `join_session`, and who has been given a sender.
  pub record Manager : Type 0 where
    pub sessions : P.Map
    pub checked : List K
    pub senders : List (SdpOfferStreamSender K)

  pub data Step (broadcast_accepts : ℕ → Bool) (m : Manager) : Manager → Type 0 where
    hosts :
        (id : K) (max_size : ℕ) (after : P.Map)
        → host_session T P broadcast_accepts id max_size m.sessions ≡ ok after
        → Step broadcast_accepts m (record m { sessions = after })
    checks :
        (id : K)
        → check_session T P id m.sessions ≡ ok tt
        → Step broadcast_accepts m (record m { checked = id ∷ m.checked })
    is_let_in :
        (id : K) (sender : SdpOfferStreamSender K)
        → Memᴰ id m.checked
        → take_session T P id m.sessions ≡ ok sender
        → Step broadcast_accepts m (record m { senders = sender ∷ m.senders })
    offers_to_all :
        (sender : SdpOfferStreamSender K) (offers : List Text)
        → Memᴰ sender m.senders
        → Step broadcast_accepts m
            (record m { sessions = (send_sdp_offers T P sender offers m.sessions).0 })
    takes :
        (id : K) (index : ℕ) (session : WebRtcSession T.Channel)
        → P.get m.sessions id ≡ some session
        → Step broadcast_accepts m (record m {
          sessions =
              P.insert m.sessions id (record session { peers = recv_at T index session.peers });
        })
    goes :
        (id : K)
        → Step broadcast_accepts m (record m { sessions = (drop_host T P id m.sessions).0 })

  pub data Reach (broadcast_accepts : ℕ → Bool) : Manager → Type 0 where
    start : Reach broadcast_accepts (record { sessions = P.empty; checked = []; senders = [] })
    step :
        {before after : Manager}
        → Reach broadcast_accepts before
        → Step broadcast_accepts before after
        → Reach broadcast_accepts after

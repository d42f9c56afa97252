-- ===== src/Core/Webrtc.antt =====
-- mangle-api-core/src/webrtc.rs: rooms, in which every member has a direct connection to every other. One
-- who joins sends each member an offer of their own, which waits in the member's channel until the member
-- takes it. The channels (tokio's mpsc) are a parameter, and so is whether tokio's broadcast makes a
-- channel of a given capacity. What travels after an offer (ICE candidates) is not here.
mod Channels
mod Calls
mod Rooms
mod Flaws
mod Tests
use mangle_apis.Base.{
  ℕ, zero, suc, ◌<◌, ◌≡◌, Bool, true, false, Option, none, some, List, [], ◌∷◌, ◌++◌, if◌then◌else◌,
  length, leb, ◌==◌, not, map,
}
use mangle_apis.Base.Text.{Text}
use mangle_apis.Base.Map.{MapApi}
use mangle_apis.Base.Outcome.{Outcome, ok, err, panic, ◌>>=◌}

pub record SdpAnswerStreamSender : Type 0 where
  pub index : ℕ

pub record SdpOfferStream : Type 0 where
  pub sdp_offer : Text
  pub answer_stream : SdpAnswerStreamSender

-- What arrives at the one who made the offer; the candidate is a text.
pub record Answer : Type 0 where
  pub index : ℕ
  pub sdp_answer : Text
  pub ice : Text

-- `send_answer`, when the one who made the offer still waits: else its `expect` panics.
unfoldable pub send_answer : Bool → SdpAnswerStreamSender → Text → Text → Outcome (Unit {0}) Answer
send_answer true stream sdp_answer ice =
    ok (record { index = stream.index; sdp_answer = sdp_answer; ice = ice })
send_answer false stream sdp_answer ice = panic

-- What sending to a channel does: it is done, it waits for space, or the receiver is gone.
pub data Sending (Channel : Type 0) : Type 0 where
  sent : Channel → Sending Channel
  waits : Sending Channel
  closed : Sending Channel

-- What a receiver finds: an item, nothing yet, or that the sender is gone and nothing is left.
pub data Finding (A Channel : Type 0) : Type 0 where
  received : A → Channel → Finding A Channel
  empty : Finding A Channel
  disconnected : Finding A Channel

-- `mpsc`: a bounded channel with one sender and one receiver. `channel` is `none` where it panics. The
-- laws are its documentation: items arrive in order, sending waits only when the channel is full and
-- fails only when the receiver is gone.
pub record MpscApi (A : Type 0) : Type 1 where
  pub Channel : Type 0
  pub channel : ℕ → Option Channel
  pub send : Channel → A → Sending Channel
  pub recv : Channel → Finding A Channel
  pub drop_sender : Channel → Channel
  pub queued : Channel → List A
  pub capacity : Channel → ℕ
  pub has_receiver : Channel → Bool
  pub channel_lem :
      (n : ℕ) (c : Channel)
      → channel n ≡ some c
      → (queued c ≡ []) × (capacity c ≡ n) × (has_receiver c ≡ true) × (0 < n)
  pub channel-some : (n : ℕ) → 0 < n → (c : Channel) × (channel n ≡ some c)
  pub send_lem :
      (c : Channel) (a : A)
      → has_receiver c ≡ true
      → length (queued c) < capacity c
      → (d : Channel) × (send c a ≡ sent d)
        × (queued d ≡ queued c ++ a ∷ [])
        × (capacity d ≡ capacity c)
        × (has_receiver d ≡ true)
  pub send-closed : (c : Channel) (a : A) → has_receiver c ≡ false → send c a ≡ closed
  pub recv_lem :
      (c d : Channel) (a : A)
      → recv c ≡ received a d
      → (queued c ≡ a ∷ queued d) × (capacity d ≡ capacity c) × (has_receiver d ≡ has_receiver c)
  pub drop_sender_lem : (c : Channel) → queued c ≡ [] → recv (drop_sender c) ≡ disconnected

pub data JoinSessionError : Type 0 where
  not_found : JoinSessionError
  full : JoinSessionError

pub data ExistingSessionError : Type 0 where
  existing_session_error : ExistingSessionError

-- A room, with the channel to each member in the order they came; the first is the host.
pub record WebRtcSession (Channel : Type 0) : Type 0 where
  pub peers : List Channel
  pub max_size : ℕ

-- The guard of a room's entry, which is named by its key, and what was read under it.
pub record SdpOfferStreamSender (K : Type 0) : Type 0 where
  pub ref_mut : K
  pub member_count : ℕ
  pub max_size : ℕ

-- How a call of `send_sdp_offers` ends, or that it waits. Of the answers that are waited for, the
-- index of each.
pub data Offering (K : Type 0) : Type 0 where
  joined : List ℕ → Offering K
  refused : SdpOfferStreamSender K → List Text → Offering K
  waiting : Offering K
  panicked : Offering K

-- How sending one offer after the other ends.
pub data Delivery : Type 0 where
  delivered : Delivery
  stuck : Delivery
  failed : Delivery

-- What `wait_for_conn` comes to.
pub data Waited : Type 0 where
  conn : SdpOfferStream → Waited
  over : Waited
  still_waiting : Waited
  recv_panicked : Waited

abbrev pub offer_stream : Text → ℕ → SdpOfferStream
offer_stream offer index = record { sdp_offer = offer; answer_stream = record { index = index } }

module _ (T : MpscApi SdpOfferStream) where
  -- The loop over the offers and the members, from an index on. Offers that were sent stay sent.
  unfoldable pub deliver : ℕ → List Text → List T.Channel → List T.Channel × Delivery
  deliver index [] peers = (peers, delivered)
  deliver index (offer ∷ offers) [] = ([], delivered)
  deliver index (offer ∷ offers) (peer ∷ peers) =
      let (after, ending) = deliver (suc index) offers peers in
      elim (T.send peer (offer_stream offer index)) [
        | sent peer' ↦ (peer' ∷ after, ending)
        | waits ↦ (peer ∷ peers, stuck)
        | closed ↦ (peer ∷ peers, failed)
      ]

  abbrev pub indices : ℕ → List T.Channel → List ℕ
  indices index [] = []
  indices index (peer ∷ peers) = index ∷ indices (suc index) peers

  -- The two branches of `select!`, which are looked at in a random order. Nothing is ever sent to
  -- `alive_sender`, so its receivers find something when the room is dropped.
  unfoldable pub wait_for_conn : Bool → Finding SdpOfferStream T.Channel → Bool → Waited
  wait_for_conn conn_first (received stream rest) true = conn stream
  wait_for_conn conn_first empty true = still_waiting
  wait_for_conn conn_first disconnected true = recv_panicked
  wait_for_conn true (received stream rest) false = conn stream
  wait_for_conn true empty false = over
  wait_for_conn true disconnected false = recv_panicked
  wait_for_conn false found false = over

  -- The member at an index takes what is first in its channel.
  unfoldable pub recv_at : ℕ → List T.Channel → List T.Channel
  recv_at index [] = []
  recv_at zero (peer ∷ peers) = elim (T.recv peer) [
    | received stream rest ↦ rest ∷ peers
    | empty ↦ peer ∷ peers
    | disconnected ↦ peer ∷ peers
  ]
  recv_at (suc index) (peer ∷ peers) = peer ∷ recv_at index peers

  module _ {K : Type 0} (P : MapApi K (WebRtcSession T.Channel)) where
    -- `host_session`: the map afterwards. The receiver that is returned is that of the first member.
    unfoldable pub host_session : (ℕ → Bool) → K → ℕ → P.Map → Outcome ExistingSessionError P.Map
    host_session broadcast_accepts id max_size sessions = elim (P.get sessions id) [
      | some session ↦ err existing_session_error
      | none ↦ elim (T.channel max_size) [
        | none ↦ panic
        | some channel ↦
            if broadcast_accepts 0
            then ok (P.insert sessions id (record { peers = channel ∷ []; max_size = max_size }))
            else panic
      ]
    ]

    -- `host_session_random_id`, with the keys that `generate` makes: the key and the map. The loop runs
    -- out of keys with `none`.
    unfoldable pub host_session_random_id :
        (ℕ → Bool) → List K → ℕ → P.Map → Option (Outcome ExistingSessionError (K × P.Map))
    host_session_random_id broadcast_accepts [] max_size sessions = none
    host_session_random_id broadcast_accepts (id ∷ ids) max_size sessions =
        let rest = host_session_random_id broadcast_accepts ids max_size sessions in
        elim (host_session broadcast_accepts id max_size sessions) [
          | ok sessions' ↦ some (ok (id, sessions'))
          | err why ↦ rest
          | panic ↦ some panic
        ]

    -- The first block of `join_session`, which gives the entry back at its end.
    unfoldable pub check_session : K → P.Map → Outcome JoinSessionError (Unit {0})
    check_session id sessions = elim (P.get sessions id) [
      | none ↦ err not_found
      | some session ↦ if leb session.max_size (length session.peers) then err full else ok tt
    ]

    -- The rest of it, from `get_mut` on.
    unfoldable pub take_session : K → P.Map → Outcome JoinSessionError (SdpOfferStreamSender K)
    take_session id sessions = elim (P.get sessions id) [
      | none ↦ panic
      | some session ↦ ok (record {
        ref_mut = id;
        member_count = length session.peers;
        max_size = session.max_size;
      })
    ]

    -- `join_session` when nothing else happens between the two.
    unfoldable pub join_session : K → P.Map → Outcome JoinSessionError (SdpOfferStreamSender K)
    join_session id sessions = check_session id sessions >>= λ _. take_session id sessions

    -- The push of the new member, once every offer is sent.
    unfoldable pub push_peer :
        SdpOfferStreamSender K
        → WebRtcSession T.Channel
        → List T.Channel
        → P.Map
        → P.Map × Offering K
    push_peer sender session peers sessions = elim (T.channel sender.max_size) [
      | none ↦ (P.insert sessions sender.ref_mut (record session { peers = peers }), panicked)
      | some channel ↦ (
        P.insert sessions sender.ref_mut (record session { peers = peers ++ channel ∷ [] }),
        joined (indices 0 peers),
      )
    ]

    unfoldable pub send_sdp_offers : SdpOfferStreamSender K → List Text → P.Map → P.Map × Offering K
    send_sdp_offers sender offers sessions =
        if not (length offers == sender.member_count)
        then (sessions, refused sender offers)
        else elim (P.get sessions sender.ref_mut) [
          -- not while the guard is held
          | none ↦ (sessions, panicked)
          | some session ↦
              let (peers, ending) = deliver 0 offers session.peers in
              let interrupted =
                P.insert sessions sender.ref_mut (record session { peers = peers }) in
              elim ending [
                | delivered ↦ push_peer sender session peers sessions
                | stuck ↦ (interrupted, waiting)
                | failed ↦ (interrupted, panicked)
              ]
        ]

    -- The drop of a `HostConnectionReceiver`: the map, and what the receivers of the members are left with.
    unfoldable pub drop_host : K → P.Map → P.Map × List T.Channel
    drop_host id sessions = elim (P.get sessions id) [
      | none ↦ (sessions, [])
      | some session ↦ (P.remove sessions id, map T.drop_sender session.peers)
    ]

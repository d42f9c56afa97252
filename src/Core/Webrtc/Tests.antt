-- ===== src/Core/Webrtc/Tests.antt =====
-- A room of two, over channels that are lists.
use mangle_apis.Base.{
  ℕ, zero, suc, ◌<◌, ◌≡◌, refl, sym, ap, ap₂, ◌∙◌, Bool, true, false, Option, none, some, List, [],
  ◌∷◌, ◌++◌, length, ltb, lt→ltb, ◌==◌, ==_iff, arith, if◌then◌else◌,
}
use mangle_apis.Base.Text.{bytes}
use mangle_apis.Base.Map.{MapApi, assoc_map}
use mangle_apis.Base.Outcome.{ok, err}
use mangle_apis.Core.Webrtc.{
  SdpOfferStream, MpscApi, Sending, sent, waits, closed, Finding, received, empty, disconnected,
  WebRtcSession, SdpOfferStreamSender, joined, not_found, host_session, join_session, check_session,
  take_session, send_sdp_offers, deliver, push_peer, offer_stream,
}
use mangle_apis.Core.Webrtc.Rooms.{start}
use mangle_apis.Core.Webrtc.Flaws.{no_room_is_hosted, two_join_at_once}

record Fifo : Type 0 where
  queue : List SdpOfferStream
  capacity : ℕ
  receiver : Bool
  sender : Bool

abbrev open_fifo : ℕ → Option Fifo
open_fifo zero = none
open_fifo (suc n) = some (record { queue = []; capacity = suc n; receiver = true; sender = true })

abbrev send_fifo : Fifo → SdpOfferStream → Sending Fifo
send_fifo c a =
    if c.receiver
    then if ltb (length c.queue) c.capacity
      then sent (record c { queue = c.queue ++ a ∷ [] })
      else waits
    else closed

abbrev none_left : Bool → Finding SdpOfferStream Fifo
none_left true = empty
none_left false = disconnected

abbrev recv_from : List SdpOfferStream → Fifo → Finding SdpOfferStream Fifo
recv_from [] c = none_left c.sender
recv_from (a ∷ queue) c = received a (record c { queue = queue })

open_fifo_lem :
    (n : ℕ) (c : Fifo)
    → open_fifo n ≡ some c
    → (c.queue ≡ []) × (c.capacity ≡ n) × (c.receiver ≡ true) × (0 < n)
open_fifo_lem zero c e = absurd (cc)
open_fifo_lem (suc n) c e =
    let made : c ≡ record { queue = []; capacity = suc n; receiver = true; sender = true } = cc in
    (ap (λ d. d.queue) made, ap (λ d. d.capacity) made, ap (λ d. d.receiver) made, omega arith)

open_fifo-some : (n : ℕ) → 0 < n → (c : Fifo) × (open_fifo n ≡ some c)
open_fifo-some zero h = absurd (omega arith)
open_fifo-some (suc n) h = (_, refl)

send_fifo_lem :
    (c : Fifo) (a : SdpOfferStream)
    → c.receiver ≡ true
    → length c.queue < c.capacity
    → (d : Fifo) × (send_fifo c a ≡ sent d)
      × (d.queue ≡ c.queue ++ a ∷ [])
      × (d.capacity ≡ c.capacity)
      × (d.receiver ≡ true)
send_fifo_lem c a r room = (
  record c { queue = c.queue ++ a ∷ [] },
  rw r (rw (lt→ltb (length c.queue) c.capacity room) refl),
  refl,
  refl,
  r,
)

send_fifo-closed : (c : Fifo) (a : SdpOfferStream) → c.receiver ≡ false → send_fifo c a ≡ closed
send_fifo-closed c a r = rw r refl

recv_fifo_lem :
    (c d : Fifo) (a : SdpOfferStream)
    → recv_from c.queue c ≡ received a d
    → (c.queue ≡ a ∷ d.queue) × (d.capacity ≡ c.capacity) × (d.receiver ≡ c.receiver)
recv_fifo_lem c d a = found c.queue refl
  where
    found :
        (queue : List SdpOfferStream)
        → c.queue ≡ queue
        → recv_from queue c ≡ received a d
        → (c.queue ≡ a ∷ d.queue) × (d.capacity ≡ c.capacity) × (d.receiver ≡ c.receiver)
    found [] nothing got = absurd (nothing_found c.sender got)
      where
        nothing_found : (sender : Bool) → none_left sender ≡ received a d → ⊥
        nothing_found true = λ e. cc
        nothing_found false = λ e. cc
    found (b ∷ queue) some_there got =
        let rest : d ≡ record c { queue = queue } = cc in
        let first : a ≡ b = cc in
        (
          some_there ∙ ap₂ (◌∷◌) (sym first) (ap (λ e. e.queue) (sym rest)),
          ap (λ e. e.capacity) rest,
          ap (λ e. e.receiver) rest,
        )

recv_fifo-dropped :
    (c : Fifo) → c.queue ≡ [] → recv_from c.queue (record c { sender = false }) ≡ disconnected
recv_fifo-dropped c nothing = rw nothing refl

abbrev fifo : MpscApi SdpOfferStream
fifo = record {
  Channel = Fifo;
  channel = open_fifo;
  send = send_fifo;
  recv = λ c. recv_from c.queue c;
  drop_sender = λ c. record c { sender = false };
  queued = λ c. c.queue;
  capacity = λ c. c.capacity;
  has_receiver = λ c. c.receiver;
  channel_lem = open_fifo_lem;
  channel-some = open_fifo-some;
  send_lem = send_fifo_lem;
  send-closed = send_fifo-closed;
  recv_lem = recv_fifo_lem;
  drop_sender_lem = recv_fifo-dropped;
}

abbrev Rooms : MapApi ℕ (WebRtcSession Fifo)
Rooms = assoc_map (◌==◌) ==_iff

abbrev some_capacity : ℕ → Bool
some_capacity n = ltb 0 n

abbrev code : ℕ
code = 4321

abbrev listening : Bool → Fifo
listening receiver = record { queue = []; capacity = 2; receiver = receiver; sender = true }

abbrev with_host : Bool → WebRtcSession Fifo
with_host receiver = record { peers = listening receiver ∷ []; max_size = 2 }

abbrev one_room : Bool → Rooms.Map
one_room receiver = Rooms.insert Rooms.empty code (with_host receiver)

abbrev newcomer : SdpOfferStreamSender ℕ
newcomer = record { ref_mut = code; member_count = 1; max_size = 2 }

newcomer_admitted : join_session fifo Rooms code (one_room true) ≡ ok newcomer
unfolding join_session check_session take_session assoc_map
newcomer_admitted = refl

-- The offer that the host finds after someone has come.
after_join : send_sdp_offers fifo Rooms newcomer (bytes "hi" ∷ []) (one_room true) ≡ (
  Rooms.insert (one_room true) code (record {
    peers =
        record (listening true) { queue = offer_stream (bytes "hi") 0 ∷ [] } ∷ listening true ∷ [];
    max_size = 2;
  }),
  joined (0 ∷ []),
)
unfolding send_sdp_offers deliver push_peer assoc_map
after_join = refl

no_room_is_hosted_example :
    (join_session fifo Rooms code Rooms.empty ≡ err not_found)
    × ((max_size : ℕ) (after : Rooms.Map)
        → ¬ (host_session fifo Rooms some_capacity code max_size Rooms.empty ≡ ok after))
no_room_is_hosted_example =
    no_room_is_hosted fifo Rooms some_capacity refl
      (record { sessions = Rooms.empty; checked = []; senders = [] }) start code

host_found : Rooms.get (one_room true) code ≡ some (with_host true)
unfolding assoc_map
host_found = refl

host_left : Rooms.get (one_room false) code ≡ some (with_host false)
unfolding assoc_map
host_left = refl

two_joined :
    (sender sender' : SdpOfferStreamSender ℕ) × (final : WebRtcSession Fifo) × (check_session fifo
        Rooms code
        (one_room true)
      ≡ ok tt)
    × (take_session fifo Rooms code (one_room true) ≡ ok sender)
    × (let between = (send_sdp_offers fifo Rooms sender (bytes "a" ∷ []) (one_room true)).0 in
        (take_session fifo Rooms code between ≡ ok sender')
        × (Rooms.get
              (send_sdp_offers fifo Rooms sender' (bytes "b" ∷ bytes "c" ∷ []) between).0
              code
            ≡ some final)
        × (length final.peers ≡ suc final.max_size))
two_joined =
    two_join_at_once fifo Rooms code (one_room true) (with_host true) (bytes "a" ∷ [])
      (bytes "b" ∷ bytes "c" ∷ []) host_found (omega arith, (refl, refl, omega arith, tt)) refl refl
      refl

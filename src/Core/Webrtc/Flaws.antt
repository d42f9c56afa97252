-- ===== src/Core/Webrtc/Flaws.antt =====
-- What goes wrong in the rooms of webrtc.rs: two who join at once, a member who leaves, a host who goes,
-- and the broadcast channel of no capacity.
use mathlib.Core.List.{Memᴰ}
use mathlib.Core.List.Memᴰ
use mangle_apis.Base.{
  subst, ℕ, suc, ◌≡◌, ◌<◌, refl, sym, ap, ◌∙◌, Bool, true, false, none, some, List, [], ◌∷◌, ◌++◌,
  map, length, leb, inl, inr, ◌⊎◌, map-append, arith, ==_iff,
}
use mangle_apis.Base.Text.{Text}
use mangle_apis.Base.Map.{MapApi}
use mangle_apis.Base.Outcome.{ok, err}
use mangle_apis.Core.Webrtc.{
  SdpOfferStream, MpscApi, WebRtcSession, SdpOfferStreamSender, joined, not_found, deliver,
  Delivery, delivered, stuck, failed, host_session, join_session, check_session, take_session,
  send_sdp_offers, drop_host, wait_for_conn, over, recv_panicked,
}
use mangle_apis.Core.Webrtc.Channels.{deliver-left}
use mangle_apis.Core.Webrtc.Calls.{
  RoomOk, host_session-ok, join_session-none, send_sdp_offers_lem, sender_of,
}
use mangle_apis.Core.Webrtc.Rooms.{
  Manager, Step, Reach, hosts, checks, is_let_in, offers_to_all, takes, goes, start, step,
}

le→leb : (a b : ℕ) → b < a → leb a b ≡ false
le→leb a b less = ground arith

module _ (T : MpscApi SdpOfferStream) {K : Type 0} (P : MapApi K (WebRtcSession T.Channel)) where
  Delivery-cases : (d : Delivery) → (d ≡ delivered) ⊎ (d ≡ stuck) ⊎ (d ≡ failed)
  Delivery-cases delivered = inl refl
  Delivery-cases stuck = inr (inl refl)
  Delivery-cases failed = inr (inr refl)

  get_inserted :
      (sessions : P.Map) (id : K) (session : WebRtcSession T.Channel)
      → P.get (P.insert sessions id session) id ≡ some session
  get_inserted sessions id session =
      P.get-insert sessions id session id ∙ rw ((P.key_eq_iff id id).1 refl) refl

  nobody_hosts :
      (broadcast_accepts : ℕ → Bool) (id : K) (max_size : ℕ) (before after : P.Map)
      → broadcast_accepts 0 ≡ false
      → ¬ (host_session T P broadcast_accepts id max_size before ≡ ok after)
  nobody_hosts broadcast_accepts id max_size before after panics fine =
      let (channel, made, accepts, _) =
        host_session-ok T P broadcast_accepts id max_size before after fine in
      cc

  check_session-none :
      (id : K) (sessions : P.Map)
      → P.get sessions id ≡ none
      → check_session T P id sessions ≡ err not_found
  unfolding check_session
  check_session-none id sessions gone = rw (gone, check_session) refl

  -- No room, and nobody on the way into one.
  record Deserted (m : Manager T P) : Type 0 where
    no_session : (id : K) → P.get m.sessions id ≡ none
    nobody_checked : m.checked ≡ []
    nobody_let_in : m.senders ≡ []

  Step-Deserted :
      (broadcast_accepts : ℕ → Bool) (before after : Manager T P)
      → broadcast_accepts 0 ≡ false
      → Step T P broadcast_accepts before after
      → Deserted before
      → Deserted after
  Step-Deserted broadcast_accepts before _ panics (hosts id max_size after fine) d =
      absurd (nobody_hosts broadcast_accepts id max_size before.sessions after panics fine)
  Step-Deserted broadcast_accepts before _ panics (checks id fine) d =
      absurd (cc (fine, check_session-none id before.sessions (d.no_session id)))
  Step-Deserted broadcast_accepts before _ panics (is_let_in id sender passed fine) d =
      absurd (Memᴰ.not-nil (subst (Memᴰ id) d.nobody_checked passed))
  Step-Deserted broadcast_accepts before _ panics (offers_to_all sender offers held) d =
      absurd (Memᴰ.not-nil (subst (Memᴰ sender) d.nobody_let_in held))
  Step-Deserted broadcast_accepts before _ panics (takes id index session found) d =
      absurd (cc (found, d.no_session id))
  Step-Deserted broadcast_accepts before _ panics (goes id) d = record {
    no_session = λ other. unfold drop_host in rw (d.no_session id, drop_host) (d.no_session other);
    nobody_checked = d.nobody_checked;
    nobody_let_in = d.nobody_let_in;
  }

  Reach-Deserted :
      (broadcast_accepts : ℕ → Bool) (m : Manager T P)
      → broadcast_accepts 0 ≡ false
      → Reach T P broadcast_accepts m
      → Deserted m
  Reach-Deserted broadcast_accepts _ panics start = record {
    no_session = P.get-empty;
    nobody_checked = refl;
    nobody_let_in = refl;
  }
  Reach-Deserted broadcast_accepts _ panics (step {before} {after} r s) =
      Step-Deserted broadcast_accepts before after panics s
        (Reach-Deserted broadcast_accepts before panics r)

  -- Where making a broadcast channel of capacity 0 panics, as tokio documents, no room can be hosted:
  -- however hosts, newcomers and members call, and however their calls interleave, `host_session` never
  -- returns `Ok`, and `join_session` finds no room.
  pub no_room_is_hosted :
      (broadcast_accepts : ℕ → Bool)
      → broadcast_accepts 0 ≡ false
      → (m : Manager T P) → Reach T P broadcast_accepts m
      → (id : K)
      → (join_session T P id m.sessions ≡ err not_found)
        × ((max_size : ℕ) (after : P.Map)
            → ¬ (host_session T P broadcast_accepts id max_size m.sessions ≡ ok after))
  no_room_is_hosted broadcast_accepts panics m reached id = (
    join_session-none T P id m.sessions
        ((Reach-Deserted broadcast_accepts m panics reached).no_session id),
    λ max_size after. nobody_hosts broadcast_accepts id max_size m.sessions after panics,
  )

  check_session-ok :
      (id : K) (sessions : P.Map) (session : WebRtcSession T.Channel)
      → P.get sessions id ≡ some session
      → length session.peers < session.max_size
      → check_session T P id sessions ≡ ok tt
  unfolding check_session
  check_session-ok id sessions session there room =
      rw (there, check_session)
        (rw (le→leb session.max_size (length session.peers) room, check_session) refl)

  take_session-ok :
      (id : K) (sessions : P.Map) (session : WebRtcSession T.Channel)
      → P.get sessions id ≡ some session
      → take_session T P id sessions ≡ ok (sender_of T P id session)
  unfolding take_session
  take_session-ok id sessions session there = rw (there, take_session) refl

  -- In a room with one place left, if there were one, two who join at once would be one too many: both pass the check of
  -- `join_session` before either goes on, the first takes the room and sends an offer to each member, the
  -- second does the same afterwards, and then the room has one member more than its size.
  pub two_join_at_once :
      (id : K) (sessions : P.Map) (session : WebRtcSession T.Channel) (offers offers' : List Text)
      → P.get sessions id ≡ some session
      → RoomOk T session
      → suc (length session.peers) ≡ session.max_size
      → length offers ≡ length session.peers
      → length offers' ≡ session.max_size
      → (sender sender' : SdpOfferStreamSender K) × (final : WebRtcSession T.Channel)
        × (check_session T P id sessions ≡ ok tt)
        × (take_session T P id sessions ≡ ok sender)
        × (let between = (send_sdp_offers T P sender offers sessions).0 in
            (take_session T P id between ≡ ok sender')
            × (P.get (send_sdp_offers T P sender' offers' between).0 id ≡ some final)
            × (length final.peers ≡ suc final.max_size))
  two_join_at_once id sessions session offers offers' there good one_left right right' =
      let (newcomer, peers, done, _, _, _, more, listening) =
        send_sdp_offers_lem T P id sessions session offers there good (omega arith) right in
      let middle : WebRtcSession T.Channel = record session { peers = peers ++ newcomer ∷ [] } in
      let between : P.Map = P.insert sessions id middle in
      let here : P.get between id ≡ some middle = get_inserted sessions id middle in
      let (second, peers', done', _, _, _, more', _) =
        send_sdp_offers_lem T P id between middle offers' here (omega arith, listening)
          (omega arith) (omega arith) in
      (
        sender_of T P id session,
        sender_of T P id middle,
        record session { peers = peers' ++ second ∷ [] },
        check_session-ok id sessions session there (omega arith),
        take_session-ok id sessions session there,
        rw done (
          take_session-ok id between middle here,
          rw done' (get_inserted between id _),
          omega arith,
        ),
      )

  -- A room in which a member has dropped its receiver takes nobody any more: whoever joins, with an offer
  -- for each member, does not get in, for the sending of the offers panics if it ends.
  pub member_left :
      (id : K) (sessions : P.Map) (session : WebRtcSession T.Channel) (offers : List Text)
      (before after : List T.Channel) (peer : T.Channel) (answers : List ℕ)
      → P.get sessions id ≡ some session
      → session.peers ≡ before ++ peer ∷ after
      → T.has_receiver peer ≡ false
      → length offers ≡ length session.peers
      → ¬ ((send_sdp_offers T P (sender_of T P id session) offers sessions).1 ≡ joined answers)
  unfolding send_sdp_offers
  member_left id sessions session offers before after peer answers there split gone right =
      rw (there, send_sdp_offers)
        (rw ((==_iff (length offers) (length session.peers)).1 right, send_sdp_offers)
          (elim (Delivery-cases (deliver T 0 offers session.peers).1) [
            | inl done ↦ absurd (
                deliver-left T 0 offers before after peer (right ∙ ap length split) gone
                  (ap (λ peers. (deliver T 0 offers peers).1) (sym split) ∙ done))
            | inr (inl waits) ↦ rw (waits, send_sdp_offers) (λ e. cc)
            | inr (inr panics) ↦ rw (panics, send_sdp_offers) (λ e. cc)
          ]))

  -- A member that waits for a connection when the host goes, with nothing left in its channel, panics or
  -- is told that the room is over, by which branch `select!` happens to look at first.
  pub wait-drop_host :
      (id : K) (sessions : P.Map) (session : WebRtcSession T.Channel) (peer : T.Channel)
      (before after : List T.Channel)
      → P.get sessions id ≡ some session
      → session.peers ≡ before ++ peer ∷ after
      → T.queued peer ≡ []
      → let (dropped, left) = drop_host T P id sessions in
        (left ≡ map T.drop_sender before ++ T.drop_sender peer ∷ map T.drop_sender after)
        × (join_session T P id dropped ≡ err not_found)
        × (wait_for_conn T true (T.recv (T.drop_sender peer)) false ≡ recv_panicked)
        × (wait_for_conn T false (T.recv (T.drop_sender peer)) false ≡ over)
  unfolding drop_host wait_for_conn
  wait-drop_host id sessions session peer before after there split nothing =
      rw (there, drop_host)
        (
          ap (map T.drop_sender) split ∙ map-append T.drop_sender before (peer ∷ after),
          join_session-none T P id (P.remove sessions id)
              (P.get-remove sessions id id ∙ rw ((P.key_eq_iff id id).1 refl) refl),
          rw (T.drop_sender_lem peer nothing) refl,
          refl,
        )

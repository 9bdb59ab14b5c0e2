-- ===== src/Listener/Message/Transitions.antt =====
-- The state machine of the handshake: what a message does to the status of its stream.
use libp2p_transport_veilid.Prelude.{
  ℕ, ◌≡◌, ◌≢◌, refl, ◌∙◌, Bool, true, false, some, inl, inr, List, ltb, ◌==◌, ◌&&◌, not, subst,
  arith, Bool-cases, Option-cases, if◌then◌else◌,
}
use libp2p_transport_veilid.Prelude.Map.{lookup, lookup-insert}
use libp2p_transport_veilid.External.{External}
use libp2p_transport_veilid.Address.{Address, Address-discrete, Api, less, equal, greater, cmp}
use libp2p_transport_veilid.Stream.{
  VeilidStream, Effect, StreamStatus, update_outbound_delivered_seq, dial, listen, active, expired,
  get_remote_stream_id, update_remote_stream_id, update_status,
  update_inbound_last_timestamp_to_now,
}
use libp2p_transport_veilid.Stream.Outbound.{Routing, flush}
use libp2p_transport_veilid.Stream.Inbound.{recv_message, remove_sent_messages_from_queue}
use libp2p_transport_veilid.Stream.Statuses.{recv_message-status, flush-status}
use libp2p_transport_veilid.Listener.{VeilidListener, Clock, put_stream, create_stream}
use libp2p_transport_veilid.Listener.Decode.{
  Message, MessageType, dial_type, listen_type, status_type, ping_type, data_type, verify_signature,
  message_type,
}
use libp2p_transport_veilid.Listener.Message.{
  quiet, wrote, on_message, on_stream, by_status, refresh_id, on_dial, on_listen, on_active,
  on_redial, on_both_dialed, learn_key,
}
use libp2p_transport_veilid.Listener.Message.Gates.{on_message_found, learn_key-status}

-- The handshake: a stream waits in dial or in listen until it is active.
pub data May : StreamStatus → MessageType → (is_signed : Bool) → StreamStatus → Type 0 where
  stay : {a : StreamStatus} {k : MessageType} {is_signed : Bool} → May a k is_signed a
  yield : {is_signed : Bool} → May dial dial_type is_signed listen
  answered : {is_signed : Bool} → May dial listen_type is_signed active
  first_data : May listen data_type true active
  redialed : {is_signed : Bool} → May active dial_type is_signed listen

-- What a message from an address may do to a listener that has a stream for it.
pub record Moved {X : External} (l : VeilidListener X) (a : Address X) (k : MessageType)
    (is_signed : Bool) (before : StreamStatus) (n : VeilidListener X) : Type 0 where
  pub stream : VeilidStream X
  pub found : lookup (Address-discrete X) a n.streams ≡ some stream
  pub move : May before k is_signed stream.status
  pub others :
      (b : Address X)
      → b ≢ a
      → lookup (Address-discrete X) b n.streams ≡ lookup (Address-discrete X) b l.streams

module _ {X : External} (l : VeilidListener X) (a : Address X) (k : MessageType) (is_signed : Bool)
    (before : StreamStatus) where
  kept :
      (s : VeilidStream X)
      → lookup (Address-discrete X) a l.streams ≡ some s
      → s.status ≡ before
      → Moved l a k is_signed before l
  kept s e same = record { stream = s; found = e; move = rw same stay; others = λ b ne. refl }

  put :
      (t : VeilidStream X) (after : StreamStatus)
      → May before k is_signed after
      → t.status ≡ after
      → Moved l a k is_signed before (put_stream l a t)
  put t after move same = record {
    stream = t;
    found = ground (arith, lookup-insert (Address-discrete X) a a t l.streams);
    move = rw same move;
    others = λ b ne. ground (arith, lookup-insert (Address-discrete X) a b t l.streams);
  }

  -- A write to the address's stream beforehand makes no difference.
  after_put :
      (t : VeilidStream X) (n : VeilidListener X)
      → Moved (put_stream l a t) a k is_signed before n
      → Moved l a k is_signed before n
  after_put t n v = record {
    stream = v.stream;
    found = v.found;
    move = v.move;
    others =
        λ b ne. v.others b ne ∙ ground (arith, lookup-insert (Address-discrete X) a b t l.streams);
  }

module _ {X : External} (clock : Clock) (api : Api X) (r : Routing) (here : Address X)
    (m : Message X) where
  -- A stream that is created is in the map.
  pub create_stream-listener :
      (l l' : VeilidListener X) (id : ℕ) (s : VeilidStream X)
      → create_stream clock api l here m.address id ≡ some (l', s)
      → l' ≡ put_stream l m.address s
  unfolding create_stream
  create_stream-listener l l' id s e = ground arith

  module _ (l : VeilidListener X) (is_signed : Bool) (s : VeilidStream X)
      (found : lookup (Address-discrete X) m.address l.streams ≡ some s) where
    -- Data is taken with a good signature only.
    data-Moved :
        (before : StreamStatus) (t : VeilidStream X) (effects : List (Effect X)) (signed : Bool)
        → s.status ≡ before
        → t.status ≡ active
        → May before data_type true active
        → Moved l m.address data_type signed before
            (if signed then wrote l m.address t effects else quiet l).listener
    data-Moved before t effects true e made move =
        put l m.address data_type true before t active move made
    data-Moved before t effects false e made move =
        kept l m.address data_type false before s found e

    on_redial-Moved :
        s.status ≡ active
        → Moved l m.address dial_type is_signed active (on_redial clock api r l here m).listener
    unfolding on_redial update_status
    on_redial-Moved e = elim (Option-cases (create_stream clock api l here m.address m.stream_id)) [
      | inl none_made ↦
          rw (on_redial, none_made) (kept l m.address dial_type is_signed active s found e)
      | inr ((l', t), made) ↦
          rw (on_redial, made)
            (rw (create_stream-listener l l' m.stream_id t made) (
              after_put l m.address dial_type is_signed active t _ (
                put (put_stream l m.address t) m.address dial_type is_signed active _ listen
                  redialed refl)))
    ]

    on_dial-Moved :
        (k : MessageType)
        → s.status ≡ dial
        → Moved l m.address k is_signed dial (on_dial clock r l here m s k).listener
    unfolding on_dial on_both_dialed update_status update_inbound_last_timestamp_to_now
        update_remote_stream_id
    on_dial-Moved dial_type e =
        elim (cmp m.address here)
          as (λ o.
            Moved l m.address dial_type is_signed dial
              (on_both_dialed clock r l m (learn_key 4 m.msg_data s) o).listener) [
                | less ↦ put l m.address dial_type is_signed dial _ dial stay refl
                | equal ↦
                    put l m.address dial_type is_signed dial _ dial stay
                      (learn_key-status 4 m.msg_data s ∙ e)
                | greater ↦ put l m.address dial_type is_signed dial _ listen yield refl
              ]
    on_dial-Moved listen_type e =
        let t =
          update_status
            (update_remote_stream_id
              (update_inbound_last_timestamp_to_now clock.instant (learn_key 6 m.msg_data s))
              m.stream_id)
            active in
        put l m.address listen_type is_signed dial (flush r clock.instant t).0 active answered
          (flush-status r clock.instant t)
    on_dial-Moved status_type e = kept l m.address status_type is_signed dial s found e
    on_dial-Moved ping_type e = kept l m.address ping_type is_signed dial s found e
    on_dial-Moved data_type e = kept l m.address data_type is_signed dial s found e

    on_listen-Moved :
        (k : MessageType)
        → s.status ≡ listen
        → Moved l m.address k is_signed listen (on_listen clock r l m s is_signed k).listener
    unfolding on_listen update_remote_stream_id
    on_listen-Moved dial_type e = put l m.address dial_type is_signed listen _ listen stay e
    on_listen-Moved data_type e =
        let t =
          recv_message clock.instant (update_status s active) m.received_seq m.msg_seq m.msg_data in
        let made =
          recv_message-status clock.instant (update_status s active) m.received_seq m.msg_seq
            m.msg_data in
        elim (Bool-cases (get_remote_stream_id s == m.stream_id)) [
          | inr other ↦
              rw (on_listen, other) (kept l m.address data_type is_signed listen s found e)
          | inl same ↦ rw (on_listen, same) (data-Moved listen t.0 t.1 is_signed e made first_data)
        ]
    on_listen-Moved listen_type e = kept l m.address listen_type is_signed listen s found e
    on_listen-Moved status_type e = kept l m.address status_type is_signed listen s found e
    on_listen-Moved ping_type e = kept l m.address ping_type is_signed listen s found e

    on_active-Moved :
        (k : MessageType)
        → s.status ≡ active
        → Moved l m.address k is_signed active
            (on_active clock api r l here m s is_signed k).listener
    unfolding on_active update_status update_outbound_delivered_seq remove_sent_messages_from_queue
    on_active-Moved dial_type e = elim (Bool-cases (ltb (get_remote_stream_id s) m.stream_id)) [
      | inr old ↦ rw (on_active, old) (kept l m.address dial_type is_signed active s found e)
      | inl newer ↦ rw (on_active, newer) (on_redial-Moved e)
    ]
    on_active-Moved status_type e = put l m.address status_type is_signed active _ active stay e
    on_active-Moved data_type e =
        let t =
          recv_message clock.instant (update_status s active) m.received_seq m.msg_seq m.msg_data in
        let made =
          recv_message-status clock.instant (update_status s active) m.received_seq m.msg_seq
            m.msg_data in
        data-Moved active t.0 t.1 is_signed e made stay
    on_active-Moved listen_type e = kept l m.address listen_type is_signed active s found e
    on_active-Moved ping_type e = kept l m.address ping_type is_signed active s found e

    on_stream-Moved :
        (k : MessageType)
        → Moved l m.address k is_signed s.status
            (on_stream clock api r l here m s is_signed k).listener
    unfolding on_stream by_status
    on_stream-Moved k =
        elim (Bool-cases
          (not (get_remote_stream_id s == 0) && ltb m.stream_id (get_remote_stream_id s))) [
            | inl stale ↦ rw (on_stream, stale) (kept l m.address k is_signed s.status s found refl)
            | inr current ↦ rw (on_stream, current) (at_status s.status refl)
          ]
      where
        at_status :
            (st : StreamStatus)
            → s.status ≡ st
            → Moved l m.address k is_signed st
                (by_status clock api r l here m s is_signed k st).listener
        at_status dial e = on_dial-Moved k e
        at_status listen e = on_listen-Moved k e
        at_status active e = on_active-Moved k e
        at_status expired e = kept l m.address k is_signed expired s found e

  refresh_id-status : (s : VeilidStream X) → (refresh_id m s).status ≡ s.status
  unfolding refresh_id update_remote_stream_id
  refresh_id-status s = ground arith

  -- A message from an address for which the listener, whose own address is known, has a stream
  -- leaves a stream there whose status is the old one or the next of the handshake, as `May`
  -- lists: from listen to active only by data whose signature verifies. The streams of every other
  -- address stay as they are.
  pub on_message-Moved :
      (l : VeilidListener X) (s : VeilidStream X)
      → l.local_address ≡ some here
      → lookup (Address-discrete X) m.address l.streams ≡ some s
      → Moved l m.address
          (message_type m.msg_data)
          (verify_signature X s.remote_public_key m.msg_data m.signature)
          s.status
          (on_message clock api r l m).listener
  on_message-Moved l s own found =
      let t = refresh_id m s in
      let n = put_stream l m.address t in
      let kind = message_type m.msg_data in
      let signed = verify_signature X s.remote_public_key m.msg_data m.signature in
      let there : lookup (Address-discrete X) m.address n.streams ≡ some t =
        ground (arith, lookup-insert (Address-discrete X) m.address m.address t l.streams) in
      subst (λ st. Moved l m.address kind signed st (on_message clock api r l m).listener)
        (refresh_id-status s)
        (rw (on_message_found clock api r l m here s own found)
          (after_put l m.address kind signed t.status t _ (on_stream-Moved n signed t there kind)))

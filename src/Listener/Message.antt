-- ===== src/Listener/Message.antt =====
-- src/listener.rs: `convert_update` on an `AppMessage`, which carries the handshake and the data.
pub mod Gates
pub mod Generations
pub mod Roles
pub mod Transitions
pub mod Handshake
pub mod Answer
use libp2p_transport_veilid.Prelude.{
  ℕ, Bool, true, false, Option, none, some, List, [], ◌∷◌, ◌++◌, ltb, ◌==◌, ◌&&◌, not, drop, length,
  if◌then◌else◌,
}
use libp2p_transport_veilid.Prelude.Map.{lookup, insert}
use libp2p_transport_veilid.External.{External, Bytes}
use libp2p_transport_veilid.Address.{
  Address, Address-discrete, Api, Ordering, less, equal, greater, cmp,
}
use libp2p_transport_veilid.Connection.{Poll, pending, ready}
use libp2p_transport_veilid.Stream
use libp2p_transport_veilid.Stream.{
  VeilidStream, Effect, StreamStatus, dial, listen, active, expired, update_remote_stream_id,
  update_status, update_inbound_last_timestamp_to_now, update_remote_public_key,
  update_outbound_delivered_seq, get_remote_stream_id,
}
use libp2p_transport_veilid.Stream.Inbound.{recv_message, remove_sent_messages_from_queue}
use libp2p_transport_veilid.Stream.Outbound.{
  Routing, sending_panics, dial_tag, listen_tag, send_dial, send_listen, flush,
}
use libp2p_transport_veilid.Listener.{
  VeilidListener, Clock, TransportEvent, TargetStatus, active_target, put_stream, create_stream,
  activate,
}
use libp2p_transport_veilid.Listener.Decode
use libp2p_transport_veilid.Listener.Decode.{
  Message, MessageType, dial_type, listen_type, status_type, ping_type, data_type, Decoded,
  decode_message, verify_signature, message_type,
}

-- What a task returns: its poll, or a panic.
pub data Outcome (X : External) : Type 0 where
  polled : Poll (Option (TransportEvent X)) → Outcome X
  task_panicked : Outcome X

pub record Handled (X : External) : Type 0 where
  pub listener : VeilidListener X
  pub effects : List (Effect X)
  pub outcome : Outcome X

module _ {X : External} where
  abbrev pub quiet : VeilidListener X → Handled X
  quiet l = record { listener = l; effects = []; outcome = polled pending }

  -- A write to the stream of the map, with what it does outside.
  abbrev pub wrote : VeilidListener X → Address X → VeilidStream X → List (Effect X) → Handled X
  wrote l address s effects = record {
    listener = put_stream l address s;
    effects = effects;
    outcome = polled pending;
  }

  -- What a task returns after it has awaited a control message of the stream.
  abbrev pub after_sending : Routing → VeilidStream X → Poll (Option (TransportEvent X)) → Outcome X
  after_sending r s result =
      if sending_panics r s.remote_target then task_panicked else polled result

  abbrev pub sent :
      Routing → VeilidListener X → Address X → VeilidStream X → List (Effect X) → Handled X
  sent r l address s effects = record {
    listener = put_stream l address s;
    effects = effects;
    outcome = after_sending r s pending;
  }

  abbrev pub activated :
      Routing → VeilidListener X → Address X → VeilidStream X → List (Effect X) → Handled X
  activated r l address s effects = record {
    listener = put_stream l address s;
    effects = effects;
    outcome = after_sending r s (activate s);
  }

  abbrev pub with_key : VeilidStream X → Option X.PublicKey → VeilidStream X
  with_key s none = s
  with_key s (some key) = update_remote_public_key s key

  -- The public key behind a tag of `n` bytes, if it decodes.
  unfoldable pub learn_key : ℕ → Bytes → VeilidStream X → VeilidStream X
  unfolding update_remote_public_key
  learn_key n msg_data s = with_key s (X.try_decode_protobuf (drop n msg_data))

  -- No stream for the address yet.
  unfoldable pub on_no_stream :
      Clock → Api X → Routing → VeilidListener X → Address X → Message X → MessageType → Handled X
  unfolding create_stream learn_key update_remote_stream_id update_status
      update_inbound_last_timestamp_to_now send_listen activate
  on_no_stream clock api r l local_address m dial_type =
      elim (create_stream clock api l local_address m.address m.stream_id) [
        | none ↦ quiet l
        | some (l', s) ↦
            let t = update_inbound_last_timestamp_to_now clock.instant (
              update_status (update_remote_stream_id (learn_key 4 m.msg_data s) m.stream_id)
                listen) in
            activated r l' m.address t (send_listen r t)
      ]
  on_no_stream clock api r l local_address m ping_type =
      quiet (record l { target_status = active_target clock.utc })
  on_no_stream clock api r l local_address m _ = quiet l

  -- Both sides dialed: the order of the addresses chooses the roles.
  unfoldable pub on_both_dialed :
      Clock → Routing → VeilidListener X → Message X → VeilidStream X → Ordering → Handled X
  unfolding update_remote_stream_id update_status update_inbound_last_timestamp_to_now send_listen
      send_dial activate
  on_both_dialed clock r l m s less =
      let t = update_status (update_inbound_last_timestamp_to_now clock.instant s) dial in
      sent r l m.address t (send_dial r t)
  on_both_dialed clock r l m s equal = record (wrote l m.address s []) {
    outcome = polled (ready none);
  }
  on_both_dialed clock r l m s greater =
      let t =
        update_inbound_last_timestamp_to_now clock.instant
          (update_status (update_remote_stream_id s m.stream_id) listen) in
      activated r l m.address t (send_listen r t)

  unfoldable pub on_dial :
      Clock
      → Routing
      → VeilidListener X
      → Address X
      → Message X
      → VeilidStream X
      → MessageType
      → Handled X
  unfolding learn_key on_both_dialed cmp flush update_remote_stream_id update_status
      update_inbound_last_timestamp_to_now
  on_dial clock r l local_address m s dial_type =
      on_both_dialed clock r l m (learn_key 4 m.msg_data s) (cmp m.address local_address)
  on_dial clock r l local_address m s listen_type =
      let t =
        update_status
          (update_remote_stream_id
            (update_inbound_last_timestamp_to_now clock.instant (learn_key 6 m.msg_data s))
            m.stream_id)
          active in
      let (u, effects, failed) = flush r clock.instant t in
      record (wrote l m.address u effects) {
        outcome = if failed then task_panicked else polled pending;
      }
  on_dial clock r l local_address m s _ = quiet l

  unfoldable pub on_listen :
      Clock
      → Routing
      → VeilidListener X
      → Message X
      → VeilidStream X
      → (is_signed : Bool) → MessageType
      → Handled X
  unfolding update_remote_stream_id send_listen get_remote_stream_id update_status recv_message
  on_listen clock r l m s is_signed dial_type =
      let t = update_remote_stream_id s m.stream_id in sent r l m.address t (send_listen r t)
  on_listen clock r l m s is_signed data_type =
      let (t, effects) =
        recv_message clock.instant (update_status s active) m.received_seq m.msg_seq m.msg_data in
      if get_remote_stream_id s == m.stream_id
      then (if is_signed then wrote l m.address t effects else quiet l)
      else quiet l
  on_listen clock r l m s is_signed _ = quiet l

  -- A stream that is active is replaced when the other side dials anew.
  unfoldable pub on_redial :
      Clock → Api X → Routing → VeilidListener X → Address X → Message X → Handled X
  unfolding create_stream learn_key update_remote_stream_id update_status send_listen activate
  on_redial clock api r l local_address m =
      elim (create_stream clock api l local_address m.address m.stream_id) [
        | none ↦ quiet l
        | some (l', s) ↦
            let t =
              update_status (update_remote_stream_id (learn_key 4 m.msg_data s) m.stream_id)
                listen in
            activated r l' m.address t (send_listen r t)
      ]

  unfoldable pub on_active :
      Clock
      → Api X
      → Routing
      → VeilidListener X
      → Address X
      → Message X
      → VeilidStream X
      → (is_signed : Bool) → MessageType
      → Handled X
  unfolding on_redial get_remote_stream_id update_outbound_delivered_seq
      remove_sent_messages_from_queue update_status recv_message
  on_active clock api r l local_address m s is_signed dial_type =
      if ltb (get_remote_stream_id s) m.stream_id
      then on_redial clock api r l local_address m
      else quiet l
  on_active clock api r l local_address m s is_signed status_type =
      wrote l m.address
        (remove_sent_messages_from_queue (update_outbound_delivered_seq s m.received_seq)) []
  on_active clock api r l local_address m s is_signed data_type =
      let (t, effects) =
        recv_message clock.instant (update_status s active) m.received_seq m.msg_seq m.msg_data in
      if is_signed then wrote l m.address t effects else quiet l
  on_active clock api r l local_address m s is_signed _ = quiet l

  unfoldable pub by_status :
      Clock
      → Api X
      → Routing
      → VeilidListener X
      → Address X
      → Message X
      → VeilidStream X
      → (is_signed : Bool) → MessageType
      → StreamStatus
      → Handled X
  unfolding on_dial on_listen on_active
  by_status clock api r l local_address m s is_signed kind dial =
      on_dial clock r l local_address m s kind
  by_status clock api r l local_address m s is_signed kind listen =
      on_listen clock r l m s is_signed kind
  by_status clock api r l local_address m s is_signed kind active =
      on_active clock api r l local_address m s is_signed kind
  by_status clock api r l local_address m s is_signed kind expired = quiet l

  -- A message from an earlier stream of the other side is dropped.
  unfoldable pub on_stream :
      Clock
      → Api X
      → Routing
      → VeilidListener X
      → Address X
      → Message X
      → VeilidStream X
      → (is_signed : Bool) → MessageType
      → Handled X
  unfolding get_remote_stream_id by_status
  on_stream clock api r l local_address m s is_signed kind =
      if not (get_remote_stream_id s == 0) && ltb m.stream_id (get_remote_stream_id s)
      then quiet l
      else by_status clock api r l local_address m s is_signed kind s.status

  -- The first answer to a dial tells the other side's id.
  unfoldable pub refresh_id : Message X → VeilidStream X → VeilidStream X
  unfolding get_remote_stream_id update_remote_stream_id
  refresh_id m s = if get_remote_stream_id s == 0 then update_remote_stream_id s m.stream_id else s

  abbrev pub stream_key : Option (VeilidStream X) → Option X.PublicKey
  stream_key none = none
  stream_key (some s) = s.remote_public_key

  abbrev pub refreshed : VeilidListener X → Message X → Option (VeilidStream X) → VeilidListener X
  refreshed l m none = l
  refreshed l m (some s) = put_stream l m.address (refresh_id m s)

  abbrev pub dispatch :
      Clock
      → Api X
      → Routing
      → VeilidListener X
      → Message X
      → (is_signed : Bool) → Option (Address X)
      → Option (VeilidStream X)
      → Handled X
  dispatch clock api r l m is_signed none found = record (quiet l) { outcome = polled (ready none) }
  dispatch clock api r l m is_signed (some local_address) none =
      on_no_stream clock api r l local_address m (message_type m.msg_data)
  dispatch clock api r l m is_signed (some local_address) (some s) =
      on_stream clock api r l local_address m (refresh_id m s) is_signed (message_type m.msg_data)

  unfoldable pub on_message : Clock → Api X → Routing → VeilidListener X → Message X → Handled X
  unfolding refresh_id on_no_stream on_stream message_type verify_signature lookup insert
  on_message clock api r l m =
      let found = lookup (Address-discrete X) m.address l.streams in
      let is_signed = verify_signature X (stream_key found) m.msg_data m.signature in
      dispatch clock api r (refreshed l m found) m is_signed l.local_address found

  unfoldable pub on_app_message : Clock → Api X → Routing → VeilidListener X → Bytes → Handled X
  unfolding decode_message on_message
  on_app_message clock api r l packet = elim (decode_message X packet) [
    | Decoded.decoded m ↦ on_message clock api r l m
    | Decoded.undecodable ↦ quiet l
    | Decoded.panicked ↦ record (quiet l) { outcome = task_panicked }
  ]

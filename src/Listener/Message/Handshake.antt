-- ===== src/Listener/Message/Handshake.antt =====
-- The first two steps of a connection: a dial that reaches the other side's listener.
use libp2p_transport_veilid.Prelude.{
  Bool, true, false, Option, if◌then◌else◌, ℕ, ◌<◌, ◌^◌, ◌≡◌, refl, none, some, ◌++◌, drop, ◌/◌,
  arith,
}
use libp2p_transport_veilid.Prelude.Map.{lookup, lookup-insert}
use libp2p_transport_veilid.External.{External, Bytes}
use libp2p_transport_veilid.Address.{
  Address, Address-discrete, Api, Target, node_id, private_route, to_target,
}
use libp2p_transport_veilid.Address.Laws.{only_key}
use libp2p_transport_veilid.Stream.{
  VeilidStream, StreamStatus, listen, update_remote_stream_id, update_status,
  update_inbound_last_timestamp_to_now, update_remote_public_key,
}
use libp2p_transport_veilid.Stream.Outbound.{
  Routing, sending_panics, encode_message, dial_tag, send_listen,
}
use libp2p_transport_veilid.Listener.{
  VeilidListener, Clock, TransportEvent, put_stream, create_stream, activate,
}
use libp2p_transport_veilid.Stream
use libp2p_transport_veilid.Connection.{Poll}
use libp2p_transport_veilid.Config.{from_secs}
use libp2p_transport_veilid.Listener.Decode.{Message, message_type, dial_type}
use libp2p_transport_veilid.Listener.Decode.RoundTrip.{Laws, sent, decode_message-encode_message}
use libp2p_transport_veilid.Listener.Message.{
  Handled, Outcome, polled, task_panicked, activated, on_message, on_app_message, on_no_stream,
  learn_key,
}

-- The packet that `send_dial` hands over.
abbrev pub dial_packet : {X : External} → VeilidStream X → Bytes
dial_packet {X} s =
    encode_message X 0 0 s.my_stream_id s.local_address
      (dial_tag ++ X.encode_protobuf (X.public s.my_keypair)) s.my_keypair

module _ {X : External} (clock : Clock) (api : Api X) (r : Routing) (l : VeilidListener X)
    (here : Address X) (target : Target X) where
  -- The stream that a dial makes.
  abbrev accepted_stream : Message X → X.PublicKey → VeilidStream X
  accepted_stream m key =
      record (Stream.new X clock.instant (clock.utc / from_secs 1) l.id here m.address target
        m.stream_id l.my_keypair) {
          remote_public_key = some key;
          remote_stream_id = m.stream_id;
          status = listen;
          inbound_last_timestamp = clock.instant;
        }

  abbrev created_stream : Message X → VeilidStream X
  created_stream m =
      Stream.new X clock.instant (clock.utc / from_secs 1) l.id here m.address target m.stream_id
        l.my_keypair

  on_message-dial :
      (m : Message X) (key : X.PublicKey)
      → l.local_address ≡ some here
      → lookup (Address-discrete X) m.address l.streams ≡ none
      → to_target api m.address ≡ some target
      → message_type m.msg_data ≡ dial_type
      → X.try_decode_protobuf (drop 4 m.msg_data) ≡ some key
      → on_message clock api r l m
        ≡ activated r
            (put_stream l m.address (created_stream m))
            m.address
            (accepted_stream m key)
            (send_listen r (accepted_stream m key))
  unfolding on_message on_no_stream create_stream learn_key Stream.new update_status
      update_remote_stream_id update_inbound_last_timestamp_to_now update_remote_public_key
  on_message-dial m key own unknown reachable kind known =
      rw (on_message, unknown, own, kind)
        (rw (on_no_stream, create_stream, reachable, learn_key, known) refl)

-- The outcome of a task that sends a control message to a target: it panics exactly for a node's
-- id, when there is a routing context and `with_safety` fails.
abbrev pub after_answer :
    {X : External} (routing_context with_safety : Bool)
    → Target X
    → Poll (Option (TransportEvent X))
    → Outcome X
after_answer true true target result = polled result
after_answer true false (node_id key) result = task_panicked
after_answer true false (private_route key) result = polled result
after_answer false with_safety target result = polled result

after_sending-after_answer :
    {X : External} (context safety : Bool) (target : Target X)
    (result : Poll (Option (TransportEvent X)))
    → ◌≡◌ {A = Outcome X}
        (if sending_panics (record { routing_context = context; with_safety = safety }) target
          then task_panicked
          else polled result)
        (after_answer context safety target result)
after_sending-after_answer true true (node_id key) result = refl
after_sending-after_answer true true (private_route key) result = refl
after_sending-after_answer true false (node_id key) result = refl
after_sending-after_answer true false (private_route key) result = refl
after_sending-after_answer false safety (node_id key) result = refl
after_sending-after_answer false safety (private_route key) result = refl

module _ {X : External} (r : Routing) (here : Address X) (s : VeilidStream X) (target : Target X)
    (id : ℕ) (keypair : X.Keypair) where
  -- What the listener does: the stream that it makes, its answer and its event.
  pub record Accepted (h : Handled X) : Type 1 where
    pub stream : VeilidStream X
    pub found :
        lookup (Address-discrete X) (only_key X s.local_address) h.listener.streams ≡ some stream
    pub listening : stream.status ≡ listen
    pub known_id : stream.remote_stream_id ≡ s.my_stream_id
    pub known_key : stream.remote_public_key ≡ some (X.public s.my_keypair)
    pub routed : stream.remote_target ≡ target
    pub local : stream.local_address ≡ here
    pub own_id : stream.my_stream_id ≡ id
    pub own_keypair : stream.my_keypair ≡ keypair
    pub answered : h.effects ≡ send_listen r stream
    pub announced :
        h.outcome ≡ after_answer r.routing_context r.with_safety target (activate stream)

module _ {X : External} (laws : Laws X) (clock : Clock) (api : Api X) (r : Routing)
    (l : VeilidListener X) (here : Address X) (s : VeilidStream X) (target : Target X) where
  -- Where texts, keys, payloads and signatures can be read back and the dialing stream's id fits 64
  -- bits: a listener with no stream for the stream's address, which handles the stream's dial and
  -- gets a target for the address, makes a stream that listens, has the time in seconds as its id and the listener's keys, knows
  -- the dialing stream's id and public key, answers the dial and is announced as an incoming
  -- connection; only where the target is a node's id, there is a routing context and `with_safety`
  -- fails, the task panics in place of the announcement.
  pub on_app_message-send_dial :
      s.my_stream_id < 2 ^ 64
      → l.local_address ≡ some here
      → lookup (Address-discrete X) (only_key X s.local_address) l.streams ≡ none
      → to_target api (only_key X s.local_address) ≡ some target
      → Accepted r here s target
          (clock.utc / from_secs 1)
          l.my_keypair
          (on_app_message clock api r l (dial_packet s))
  unfolding on_app_message message_type Stream.new
  on_app_message-send_dial small own unknown reachable =
      let msg_data = dial_tag ++ X.encode_protobuf (X.public s.my_keypair) in
      let (signature, back, verified) =
        decode_message-encode_message laws 0 0 s.my_stream_id s.local_address msg_data s.my_keypair
          (omega arith) (omega arith) small in
      let m = sent X 0 0 s.my_stream_id s.local_address msg_data signature in
      let t = accepted_stream clock api r l here target m (X.public s.my_keypair) in
      let handled : on_app_message clock api r l (dial_packet s)
          ≡ activated r (put_stream l m.address (created_stream clock api r l here target m))
              m.address t (send_listen r t) =
        rw (on_app_message, back)
          (on_message-dial clock api r l here target m (X.public s.my_keypair) own unknown reachable
            refl (laws.public_key (X.public s.my_keypair))) in
      rw handled (record {
        stream = t;
        found = ground (
          arith,
          lookup-insert (Address-discrete X) m.address m.address t
              (put_stream l m.address (created_stream clock api r l here target m)).streams,
        );
        listening = refl;
        known_id = refl;
        known_key = refl;
        routed = refl;
        local = refl;
        own_id = refl;
        own_keypair = refl;
        answered = refl;
        announced = after_sending-after_answer r.routing_context r.with_safety target (activate t);
      })

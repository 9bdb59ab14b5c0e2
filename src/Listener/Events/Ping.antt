-- ===== src/Listener/Events/Ping.antt =====
-- The ping of a listener to its own target, sent by `send_ping` and handled by `convert_update`.
use libp2p_transport_veilid.Prelude.{◌≡◌, refl, some, none, ◌++◌, arith}
use libp2p_transport_veilid.Prelude.Map.{lookup}
use libp2p_transport_veilid.External.{External, Bytes}
use libp2p_transport_veilid.Address.{Address, Address-discrete, Api, Target}
use libp2p_transport_veilid.Address.Laws.{only_key}
use libp2p_transport_veilid.Stream.Outbound.{Routing, encode_message, ping_tag}
use libp2p_transport_veilid.Listener.{VeilidListener, Clock, active_target}
use libp2p_transport_veilid.Listener.Decode.{Message, message_type, ping_type}
use libp2p_transport_veilid.Listener.Decode.RoundTrip.{Laws, sent, decode_message-encode_message}
use libp2p_transport_veilid.Listener.Events.{send_ping}
use libp2p_transport_veilid.Listener.Message.{quiet, on_message, on_app_message, on_no_stream}

-- A listener whose target was heard at this time.
abbrev pub heard : {X : External} → Clock → VeilidListener X → VeilidListener X
heard clock l = record l { target_status = active_target clock.utc }

module _ {X : External} (clock : Clock) (api : Api X) (r : Routing) (l : VeilidListener X)
    (here : Address X) where
  -- No signature is asked for.
  on_message-ping :
      (m : Message X)
      → l.local_address ≡ some here
      → lookup (Address-discrete X) m.address l.streams ≡ none
      → message_type m.msg_data ≡ ping_type
      → on_message clock api r l m ≡ quiet (heard clock l)
  unfolding on_message on_no_stream
  on_message-ping m own unknown kind = rw (on_message, unknown, own, kind) refl

module _ {X : External} (laws : Laws X) (clock : Clock) (api : Api X) (r : Routing)
    (l n : VeilidListener X) (here : Address X) (target : Target X) where
  -- Where texts, keys, payloads and signatures can be read back: a listener that has an address and
  -- a target sends a ping to that target, and when the listener, in whatever state it is by then,
  -- has an address and no stream for its own former one, the ping's arrival does nothing but mark
  -- the target as active at that time.
  pub on_app_message-send_ping :
      l.local_address ≡ some here
      → l.local_target ≡ some target
      → (there : Address X) → n.local_address ≡ some there
      → lookup (Address-discrete X) (only_key X here) n.streams ≡ none
      → (packet : Bytes) × (send_ping l ≡ some (target, packet))
        × (on_app_message clock api r n packet ≡ quiet (heard clock n))
  unfolding on_app_message message_type send_ping
  on_app_message-send_ping own routed there own' unknown =
      let msg_data = ping_tag ++ X.encode_protobuf (X.public l.my_keypair) in
      let (signature, back, verified) =
        decode_message-encode_message laws 0 0 0 here msg_data l.my_keypair (omega arith)
          (omega arith) (omega arith) in
      let m = sent X 0 0 0 here msg_data signature in
      (
        encode_message X 0 0 0 here msg_data l.my_keypair,
        rw (send_ping, own, routed) refl,
        rw (on_app_message, back) (on_message-ping clock api r n there m own' unknown refl),
      )

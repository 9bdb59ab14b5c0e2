-- ===== src/Listener/Message/Answer.antt =====
-- The third step of a connection: the answer reaches the stream that dialed.
use libp2p_transport_veilid.Prelude.{
  ℕ, ◌<◌, ◌^◌, ◌≡◌, refl, sym, subst, ◌∙◌, Bool, some, ◌++◌, drop, arith,
}
use libp2p_transport_veilid.Prelude.Map.{lookup, lookup-insert}
use libp2p_transport_veilid.External.{External, Bytes}
use libp2p_transport_veilid.Address.{Address, Address-discrete, Api}
use libp2p_transport_veilid.Address.Laws.{only_key}
use libp2p_transport_veilid.Stream.{
  VeilidStream, dial, active, get_remote_stream_id, update_remote_stream_id, update_status,
  update_inbound_last_timestamp_to_now, update_remote_public_key,
}
use libp2p_transport_veilid.Stream.Outbound.{Routing, encode_message, listen_tag, flush}
use libp2p_transport_veilid.Stream.Statuses.{flush_keeps}
use libp2p_transport_veilid.Listener.{VeilidListener, Clock, put_stream}
use libp2p_transport_veilid.Listener.Decode.{Message, message_type, listen_type, verify_signature}
use libp2p_transport_veilid.Listener.Decode.RoundTrip.{Laws, sent, decode_message-encode_message}
use libp2p_transport_veilid.Listener.Message.{
  Handled, on_app_message, on_stream, by_status, on_dial, learn_key, refresh_id,
}
use libp2p_transport_veilid.Listener.Message.Gates.{on_message_found}
use libp2p_transport_veilid.Listener.Message.Roles.{refresh_id-first}

-- The packet that `send_listen` hands over.
abbrev pub listen_packet : {X : External} → VeilidStream X → Bytes
listen_packet {X} t =
    encode_message X 0 0 t.my_stream_id t.local_address
      (listen_tag ++ X.encode_protobuf (X.public t.my_keypair)) t.my_keypair

-- What the dialing side does with the answer of the stream `t`.
pub record Connected {X : External} (a : Address X) (id : ℕ) (key : X.PublicKey) (h : Handled X)
    : Type 0 where
  pub stream : VeilidStream X
  pub found : lookup (Address-discrete X) a h.listener.streams ≡ some stream
  pub connected : stream.status ≡ active
  pub known_id : stream.remote_stream_id ≡ id
  pub known_key : stream.remote_public_key ≡ some key

module _ {X : External} (clock : Clock) (api : Api X) (r : Routing) (here : Address X)
    (m : Message X) (key : X.PublicKey) where
  on_stream-listen :
      (l : VeilidListener X) (s : VeilidStream X) (signed : Bool)
      → s.status ≡ dial
      → s.remote_stream_id ≡ m.stream_id
      → on_stream clock api r l here m s signed listen_type ≡ on_dial clock r l here m s listen_type
  unfolding on_stream by_status get_remote_stream_id
  on_stream-listen l s signed dialing same = rw dialing (ground arith)

  on_dial-listen :
      (l : VeilidListener X) (s : VeilidStream X)
      → X.try_decode_protobuf (drop 6 m.msg_data) ≡ some key
      → Connected m.address m.stream_id key (on_dial clock r l here m s listen_type)
  unfolding on_dial learn_key update_status update_remote_stream_id
      update_inbound_last_timestamp_to_now update_remote_public_key
  on_dial-listen l s known =
      let t =
        update_status
          (update_remote_stream_id
            (update_inbound_last_timestamp_to_now clock.instant (learn_key 6 m.msg_data s))
            m.stream_id)
          active in
      record {
        stream = (flush r clock.instant t).0;
        found = ground (
          arith,
          lookup-insert (Address-discrete X) m.address m.address (flush r clock.instant t).0
              l.streams,
        );
        connected = flush_keeps (λ u. u.status) (λ u b q n. refl) r clock.instant t;
        known_id = flush_keeps (λ u. u.remote_stream_id) (λ u b q n. refl) r clock.instant t;
        known_key =
            flush_keeps (λ u. u.remote_public_key) (λ u b q n. refl) r clock.instant t
            ∙ rw (learn_key, known) refl;
      }

module _ {X : External} (laws : Laws X) (clock : Clock) (api : Api X) (r : Routing)
    (l : VeilidListener X) (here : Address X) (s t : VeilidStream X) where
  -- Where texts, keys, payloads and signatures can be read back and the answering stream's id fits
  -- 64 bits: a listener that knows its own address and handles the answer to a stream that dialed
  -- and has heard nothing makes that stream active, with the answering stream's id and public key.
  pub on_app_message-send_listen :
      t.my_stream_id < 2 ^ 64
      → l.local_address ≡ some here
      → lookup (Address-discrete X) (only_key X t.local_address) l.streams ≡ some s
      → s.status ≡ dial
      → s.remote_stream_id ≡ 0
      → Connected
          (only_key X t.local_address)
          t.my_stream_id
          (X.public t.my_keypair)
          (on_app_message clock api r l (listen_packet t))
  unfolding on_app_message message_type
  on_app_message-send_listen small own found dialing unknown =
      let key = X.public t.my_keypair in
      let msg_data = listen_tag ++ X.encode_protobuf key in
      let (signature, back, verified) =
        decode_message-encode_message laws 0 0 t.my_stream_id t.local_address msg_data t.my_keypair
          (omega arith) (omega arith) small in
      let m = sent X 0 0 t.my_stream_id t.local_address msg_data signature in
      let u = refresh_id m s in
      let n = put_stream l m.address u in
      let (same, known) = refresh_id-first clock api r m s unknown in
      let handled : on_app_message clock api r l (listen_packet t)
          ≡ on_dial clock r n here m u listen_type =
        rw (on_app_message, back)
          (on_message_found clock api r l m here s own found
            ∙ on_stream-listen clock api r here m key n u
                (verify_signature X s.remote_public_key msg_data signature) (same ∙ dialing)
                known) in
      subst (Connected m.address m.stream_id key) (sym handled)
        (on_dial-listen clock api r here m key n u (laws.public_key key))

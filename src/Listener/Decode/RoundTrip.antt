-- ===== src/Listener/Decode/RoundTrip.antt =====
-- A message that one side encodes is the message that the other side decodes.
use libp2p_transport_veilid.Prelude.{ℕ, ◌<◌, ◌^◌, ◌≡◌, refl, true, some}
use libp2p_transport_veilid.External.{External, Bytes, Text, Payload}
use libp2p_transport_veilid.Address.{Address, to_multiaddr}
use libp2p_transport_veilid.Address.Laws.{lacks, only_key, try_from_multiaddr-to_multiaddr}
use libp2p_transport_veilid.Stream.Outbound.{encode_message}
use libp2p_transport_veilid.Listener.Decode.{Message, decoded, decode_message, verify_signature}

-- What the transport relies on: texts, keys, payloads and signatures can be read back.
pub record Laws (X : External) : Type 0 where
  pub unprint : (t : Text) → X.multiaddr_to_string (X.parse_multiaddr t) ≡ t
  pub record_key :
      (k : X.RecordKey)
      → (lacks b':' (X.encode_record_key k) ≡ true)
        × (X.record_key_try_from (X.encode_record_key k) ≡ some k)
  pub node_key :
      (k : X.NodeId)
      → (lacks b':' (X.encode_node_id k) ≡ true)
        × (X.node_id_try_from (X.encode_node_id k) ≡ some k)
  pub codec :
      (p : Payload)
      → p.received_seq < 2 ^ 32
      → p.msg_seq < 2 ^ 32
      → p.stream_id < 2 ^ 64
      → (packet : Bytes) × (X.encode_payload p ≡ some packet) × (X.decode_payload packet ≡ some p)
  pub signs :
      (k : X.Keypair) (bytes : Bytes)
      → (signature : Bytes) × (X.sign k bytes ≡ some signature)
        × (X.verify (X.public k) bytes signature ≡ true)
  pub public_key : (k : X.PublicKey) → X.try_decode_protobuf (X.encode_protobuf k) ≡ some k

-- The message that a packet with these fields holds.
abbrev pub sent :
    (X : External) (received_seq msg_seq stream_id : ℕ)
    → Address X
    → (msg_data signature : Bytes) → Message X
sent X received_seq msg_seq stream_id address msg_data signature = record {
  received_seq = received_seq;
  msg_seq = msg_seq;
  stream_id = stream_id;
  address = only_key X address;
  msg_data = msg_data;
  signature = signature;
}

module _ {X : External} (laws : Laws X) where
  -- Where texts, keys, payloads and signatures can be read back, a message encoded with numbers
  -- that fit its fields decodes to the same numbers and data, to the address without its owner
  -- keys and status, and to a signature that verifies with the sender's public key.
  pub decode_message-encode_message :
      (received_seq msg_seq stream_id : ℕ) (address : Address X) (msg_data : Bytes)
      (keypair : X.Keypair)
      → received_seq < 2 ^ 32
      → msg_seq < 2 ^ 32
      → stream_id < 2 ^ 64
      → (signature : Bytes) × (decode_message X
            (encode_message X received_seq msg_seq stream_id address msg_data keypair)
          ≡ decoded (sent X received_seq msg_seq stream_id address msg_data signature))
        × (verify_signature X (some (X.public keypair)) msg_data signature ≡ true)
  unfolding decode_message encode_message verify_signature
  decode_message-encode_message received_seq msg_seq stream_id address msg_data keypair r32 m32
        s64 =
      let (signature, signed, verified) = laws.signs keypair msg_data in
      let text = X.multiaddr_to_string (to_multiaddr address) in
      let (packet, encoded, back) =
        laws.codec
          (record {
            received_seq = received_seq;
            msg_seq = msg_seq;
            stream_id = stream_id;
            signature = signature;
            address = text;
            msg_data = msg_data;
          })
          r32 m32 s64 in
      let parsed =
        (try_from_multiaddr-to_multiaddr X laws.unprint laws.record_key laws.node_key address).1 in
      (
        signature,
        rw (encode_message, signed, encoded) (rw (decode_message, back, parsed) refl),
        verified,
      )

-- ===== src/Listener/Decode.antt =====
-- Reading a message: src/stream.rs `decode_message` and `verify_signature`, and the message's type
-- in src/listener.rs.
pub mod RoundTrip
use libp2p_transport_veilid.Prelude.{
  ℕ, Bool, true, false, Option, none, some, List, [], ◌∷◌, ◌==◌, if◌then◌else◌,
}
use libp2p_transport_veilid.External.{External, Bytes, Payload}
use libp2p_transport_veilid.Address.{Address, try_from_string}
use libp2p_transport_veilid.Stream.{VeilidStream}
use libp2p_transport_veilid.Stream.Outbound.{dial_tag, listen_tag, status_tag, ping_tag}

pub record Message (X : External) : Type 0 where
  pub received_seq : ℕ
  pub msg_seq : ℕ
  pub stream_id : ℕ
  pub address : Address X
  pub msg_data : Bytes
  pub signature : Bytes

-- `panicked` is the `unwrap` of an address that does not parse.
pub data Decoded (X : External) : Type 0 where
  decoded : Message X → Decoded X
  undecodable : Decoded X
  panicked : Decoded X

abbrev pub with_address : (X : External) → Payload → Option (Address X) → Decoded X
with_address X p none = panicked
with_address X p (some address) = decoded (record {
  received_seq = p.received_seq;
  msg_seq = p.msg_seq;
  stream_id = p.stream_id;
  address = address;
  msg_data = p.msg_data;
  signature = p.signature;
})

unfoldable pub decode_message : (X : External) → Bytes → Decoded X
unfolding try_from_string
decode_message X packet = elim (X.decode_payload packet) [
  | none ↦ undecodable
  | some p ↦ with_address X p (try_from_string X p.address)
]

unfoldable pub verify_signature :
    (X : External) → Option X.PublicKey → (msg_data signature : Bytes) → Bool
verify_signature X none msg_data signature = false
verify_signature X (some key) msg_data signature = X.verify key msg_data signature

pub data MessageType : Type 0 where
  dial_type listen_type status_type ping_type data_type : MessageType

abbrev pub starts_with : Bytes → Bytes → Bool
starts_with [] bytes = true
starts_with (c ∷ tag) [] = false
starts_with (c ∷ tag) (b ∷ bytes) = if b == c then starts_with tag bytes else false

-- A lossy text starts with one of these ASCII tags exactly if the bytes do.
unfoldable pub message_type : Bytes → MessageType
message_type msg_data =
    if starts_with dial_tag msg_data
    then dial_type
    else if starts_with listen_tag msg_data
    then listen_type
    else if starts_with status_tag msg_data
    then status_type
    else if starts_with ping_tag msg_data
    then ping_type
    else data_type

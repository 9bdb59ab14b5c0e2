-- ===== src/External.antt =====
-- What the transport takes from veilid_core, libp2p and prost (none of it in this repository):
-- key types with their decidable equality and texts, signatures, and the payload's wire format.
-- Every definition that uses one of these takes the record; a property that relies on a law of
-- one of them states the law as a hypothesis.
use libp2p_transport_veilid.Prelude.{ℕ, Bool, List, Option}

abbrev pub Bytes : Type 0
Bytes = List ℕ

-- A string as its character codes.
abbrev pub Text : Type 0
Text = List ℕ

-- `Payload` of proto/generated/payload.rs; `msg_data` is its field `data`.
pub record Payload : Type 0 where
  pub received_seq : ℕ
  pub msg_seq : ℕ
  pub stream_id : ℕ
  pub signature : Bytes
  pub address : Text
  pub msg_data : Bytes

pub record External : Type 1 where
  -- veilid_core: `CryptoTyped<NodeId>`, `CryptoTyped<RecordKey>`, `KeyPair`, a route's `CryptoKey`.
  pub NodeId : Type 0
  pub RecordKey : Type 0
  pub OwnerKeys : Type 0
  pub RouteId : Type 0
  pub node_id_discrete : Discrete NodeId
  pub record_key_discrete : Discrete RecordKey
  pub owner_keys_discrete : Discrete OwnerKeys
  pub route_id_discrete : Discrete RouteId
  -- `key.value.encode()`, `NodeId::try_from` with the tag VLD0, and `to_string()` of the typed key.
  pub encode_node_id : NodeId → Text
  pub node_id_try_from : Text → Option NodeId
  pub node_id_to_string : NodeId → Text
  pub encode_record_key : RecordKey → Text
  pub record_key_try_from : Text → Option RecordKey
  pub record_key_to_string : RecordKey → Text
  -- libp2p: `Multiaddr` with `parse().unwrap()` of a text that begins with /unix/, and `to_string`.
  pub Multiaddr : Type 0
  pub parse_multiaddr : Text → Multiaddr
  pub multiaddr_to_string : Multiaddr → Text
  -- libp2p: identity keys.
  pub PublicKey : Type 0
  pub Keypair : Type 0
  pub public : Keypair → PublicKey
  pub encode_protobuf : PublicKey → Bytes
  pub try_decode_protobuf : Bytes → Option PublicKey
  pub sign : Keypair → Bytes → Option Bytes
  pub verify : PublicKey → Bytes → Bytes → Bool
  -- prost: `Payload::encode` into an empty buffer (`none` is its error) and `Payload::decode`.
  pub encode_payload : Payload → Option Bytes
  pub decode_payload : Bytes → Option Payload

-- ===== src/Tests/Demo.antt =====
-- A network with two nodes, in which keys are Booleans, a signature is the key's text before the
-- data, and a payload is its fields in a row.
use mathlib.Core.Bool.{Bool-discrete}
use libp2p_transport_veilid.Prelude.{
  ◌≡◌, refl, Bool, true, false, Option, none, some, [], ◌∷◌, ◌++◌, length, take, drop, take-append,
  drop-append, ◌==◌, if◌then◌else◌,
}
use libp2p_transport_veilid.External.{External, Bytes, Text, Payload}
use libp2p_transport_veilid.Address.{same_text}
use libp2p_transport_veilid.Address.Laws.{lacks, same_text_refl}
use libp2p_transport_veilid.Address.{unsafe, node_id}
use libp2p_transport_veilid.Stream.{VeilidStream, active, new}
use libp2p_transport_veilid.Stream.Outbound.{Routing}
use libp2p_transport_veilid.Listener.Decode.RoundTrip.{Laws}

abbrev pub print_key : Bool → Text
print_key true = b'T' ∷ []
print_key false = b'F' ∷ []

abbrev pub read_key : Text → Option Bool
read_key (c ∷ []) = if c == b'T' then some true else if c == b'F' then some false else none
read_key _ = none

abbrev pub print_payload : Payload → Bytes
print_payload p =
    p.received_seq
    ∷ p.msg_seq
    ∷ p.stream_id
    ∷ length p.signature
    ∷ length p.address
    ∷ (p.signature ++ (p.address ++ p.msg_data))

abbrev pub read_payload : Bytes → Option Payload
read_payload (r ∷ m ∷ i ∷ s ∷ a ∷ bytes) = some (record {
  received_seq = r;
  msg_seq = m;
  stream_id = i;
  signature = take s bytes;
  address = take a (drop s bytes);
  msg_data = drop a (drop s bytes);
})
read_payload _ = none

abbrev pub demo : External
demo = record {
  NodeId = Bool;
  RecordKey = Bool;
  OwnerKeys = Bool;
  RouteId = Bool;
  node_id_discrete = Bool-discrete;
  record_key_discrete = Bool-discrete;
  owner_keys_discrete = Bool-discrete;
  route_id_discrete = Bool-discrete;
  encode_node_id = print_key;
  node_id_try_from = read_key;
  node_id_to_string = print_key;
  encode_record_key = print_key;
  record_key_try_from = read_key;
  record_key_to_string = print_key;
  Multiaddr = Text;
  parse_multiaddr = λ t. t;
  multiaddr_to_string = λ t. t;
  PublicKey = Bool;
  Keypair = Bool;
  public = λ k. k;
  encode_protobuf = print_key;
  try_decode_protobuf = read_key;
  sign = λ k bytes. some (print_key k ++ bytes);
  verify = λ k bytes signature. same_text (print_key k ++ bytes) signature;
  encode_payload = λ p. some (print_payload p);
  decode_payload = read_payload;
}

read_key-print_key : (k : Bool) → read_key (print_key k) ≡ some k
read_key-print_key true = refl
read_key-print_key false = refl

lacks_colon : (k : Bool) → lacks b':' (print_key k) ≡ true
lacks_colon true = refl
lacks_colon false = refl

read_payload-print_payload : (p : Payload) → read_payload (print_payload p) ≡ some p
read_payload-print_payload p =
    rw
      (
        take-append p.signature (p.address ++ p.msg_data),
        drop-append p.signature (p.address ++ p.msg_data),
        take-append p.address p.msg_data,
        drop-append p.address p.msg_data,
      )
      refl

pub demo-Laws : Laws demo
demo-Laws = record {
  unprint = λ t. refl;
  record_key = λ k. (lacks_colon k, read_key-print_key k);
  node_key = λ k. (lacks_colon k, read_key-print_key k);
  codec = λ p r m s. (print_payload p, refl, read_payload-print_payload p);
  signs = λ k bytes. (print_key k ++ bytes, refl, same_text_refl (print_key k ++ bytes));
  public_key = read_key-print_key;
}

abbrev pub routes : Routing
routes = record { routing_context = true; with_safety = true }

-- A stream from one node to another, with the keys of both.
abbrev pub stream : (here there : Bool) → VeilidStream demo
stream here there = record (new demo 0 5 1 (unsafe here) (unsafe there) (node_id there) 6 here) {
  remote_public_key = some there;
  status = active;
}

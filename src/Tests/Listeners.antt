-- ===== src/Tests/Listeners.antt =====
-- Two listeners and the messages between them.
use mathlib.Core.Bool.{true≢false}
use libp2p_transport_veilid.Prelude.{
  inl, inr, ℕ, ◌≡◌, ◌≢◌, ◌≤◌, ◌⊎◌, ◌↔◌, refl, ap, Bool, true, false, none, some, List, [], ◌∷◌,
  arith,
}
use libp2p_transport_veilid.Prelude.Map.{lookup}
use libp2p_transport_veilid.External.{Bytes}
use libp2p_transport_veilid.Address.{
  Address, Address-discrete, Api, Target, private_route, update_safe, safe, unsafe, active, missing,
  node_id, cmp, equal, key_string, to_multiaddr, to_target, try_from_multiaddr, try_from_string,
  same_text,
}
use libp2p_transport_veilid.Address.Laws.{flip, cmp_iff, try_from_multiaddr-to_multiaddr}
use libp2p_transport_veilid.Stream
use libp2p_transport_veilid.Stream.{VeilidStream, StreamStatus, dial, listen, new}
use libp2p_transport_veilid.Stream.Outbound.{encode_message, dial_tag}
use libp2p_transport_veilid.NodeStatus
use libp2p_transport_veilid.Listener
use libp2p_transport_veilid.Listener.{
  VeilidListener, Clock, safe_type, unsafe_type, put_stream, offline, online, republishing,
}
use libp2p_transport_veilid.Stream.Outbound.{dial_tag}
use libp2p_transport_veilid.Listener.Decode.{
  Message, decoded, decode_message, verify_signature, message_type, data_type,
}
use libp2p_transport_veilid.Listener.Decode.RoundTrip.{sent, decode_message-encode_message}
use libp2p_transport_veilid.Listener.Message.{on_message, on_app_message, quiet, refresh_id}
use libp2p_transport_veilid.Listener.Message.Gates.{on_message-unsigned}
use libp2p_transport_veilid.Listener.Message.Generations.Sequence.{
  after_messages, after_messages-remote_stream_id,
}
use libp2p_transport_veilid.Listener.Message.Roles.{HasDialed, status_at, simultaneous_dial}
use libp2p_transport_veilid.Listener.Message.Transitions.{Moved, on_message-Moved}
use libp2p_transport_veilid.Listener.Message.Handshake.{
  Accepted, dial_packet, on_app_message-send_dial,
}
use libp2p_transport_veilid.Listener.Message.Answer.{
  Connected, listen_packet, on_app_message-send_listen,
}
use libp2p_transport_veilid.Listener.Upkeep.{
  should_update_target, update_target, update_target_task, check_task,
}
use libp2p_transport_veilid.Listener.Upkeep.Renewal.{
  update_target_task-settles, check_task-fails, update_target-again,
}
use libp2p_transport_veilid.Listener.Updates.{attached_good, on_attachment}
use libp2p_transport_veilid.Listener.Updates.Online.{
  IsDown, own, IsAnnounced, IsSilent, on_attachment-cases,
}
use libp2p_transport_veilid.Tests.Demo.{print_key, demo, demo-Laws, routes, stream}

abbrev pub clock : Clock
clock = record { instant = 9; utc = 9_000_000_000 }

abbrev pub api : Api demo
api = record {
  new_custom_private_route = none;
  routing_context = true;
  default_schema = true;
  create_dht_record = none;
  open_dht_record = λ k o. true;
  get_dht_value = λ k. none;
  set_dht_value = λ k v o. true;
  import_remote_private_route = λ b. none;
}

abbrev pub idle : Bool → VeilidListener demo
idle here = record (Listener.new demo safe_type 1 (NodeStatus.new demo) here) {
  local_address = some (unsafe here);
}

-- A listener with one stream, to the other node.
abbrev connected : Bool → Bool → VeilidStream demo → VeilidListener demo
connected here there s = record (idle here) { streams = (unsafe there, s) ∷ [] }

abbrev message : Bool → ℕ → Bytes → Bytes → Message demo
message from id bytes signature = record {
  received_seq = 0;
  msg_seq = 1;
  stream_id = id;
  address = unsafe from;
  msg_data = bytes;
  signature = signature;
}

-- The text of an address.
abbrev owned : Address demo
owned = safe true (some true) (active 4)

try_from_multiaddr-to_multiaddr_example :
    (try_from_multiaddr demo (to_multiaddr owned) ≡ some (safe true none missing))
    × (try_from_string demo (to_multiaddr owned) ≡ some (safe true none missing))
try_from_multiaddr-to_multiaddr_example =
    try_from_multiaddr-to_multiaddr demo demo-Laws.unprint demo-Laws.record_key demo-Laws.node_key
      owned

print_key_injective : (k k' : Bool) → print_key k ≡ print_key k' → k ≡ k'
print_key_injective true true e = refl
print_key_injective true false e = absurd (true≢false (ap (same_text (b'T' ∷ [])) e))
print_key_injective false true e = absurd (true≢false (ap (same_text (b'F' ∷ [])) e))
print_key_injective false false e = refl

cmp_iff_example :
    (cmp {X = demo} (unsafe false) (unsafe true)
      ≡ flip (cmp {X = demo} (unsafe true) (unsafe false)))
    × ((cmp {X = demo} (safe true (some true) missing) (safe true none (active 4)) ≡ equal)
        ↔ (true ≡ true))
    × ((cmp {X = demo} (unsafe true) (unsafe false) ≡ equal) ↔ (true ≡ false))
cmp_iff_example =
    cmp_iff print_key_injective print_key_injective (unsafe true) (unsafe false) true true
      (some true) none missing (active 4) true false

decode_message-encode_message_example :
    (signature : Bytes) × (decode_message demo (encode_message demo 3 4 5 owned (7 ∷ []) true)
      ≡ decoded (sent demo 3 4 5 owned (7 ∷ []) signature))
    × (verify_signature demo (some true) (7 ∷ []) signature ≡ true)
decode_message-encode_message_example =
    decode_message-encode_message demo-Laws 3 4 5 owned (7 ∷ []) true (omega arith) (omega arith)
      (omega arith)

-- Data with no signature.
abbrev unsigned : Message demo
unsigned = message false 6 (7 ∷ []) []

on_message-unsigned_example :
    on_message clock api routes (connected true false (stream true false)) unsigned
    ≡ quiet (
        put_stream
          (connected true false (stream true false))
          (unsafe false)
          (refresh_id unsigned (stream true false)))
unfolding Listener.new Address-discrete message_type verify_signature Stream.new lookup
on_message-unsigned_example =
    on_message-unsigned clock api routes (connected true false (stream true false)) unsigned
      (unsafe true) (stream true false) refl refl refl refl

-- Data of stream 5, where the other side's stream is 6.
abbrev stale : Message demo
stale = message false 5 (7 ∷ []) (b'F' ∷ 7 ∷ [])

-- A message of an earlier stream, and a dial of a later one.
abbrev two_messages : List (Clock × Message demo)
two_messages = (clock, stale) ∷ (clock, message false 9 dial_tag []) ∷ []

after_messages-remote_stream_id_example :
    (t : VeilidStream demo) × (lookup
        (Address-discrete demo)
        (unsafe false)
        (after_messages api routes
          (unsafe true)
          (connected true false (stream true false))
          two_messages).streams
      ≡ some t)
    × ((stream true false).remote_stream_id ≤ t.remote_stream_id)
unfolding Listener.new Address-discrete Stream.new lookup
after_messages-remote_stream_id_example =
    after_messages-remote_stream_id api routes (unsafe true) (unsafe false) two_messages
      (connected true false (stream true false)) (stream true false) refl refl (refl, (refl, tt))

abbrev first_data : Message demo
first_data = message false 6 (7 ∷ []) (b'F' ∷ 7 ∷ [])

abbrev waiting : VeilidStream demo
waiting = record (stream true false) { status = listen }

on_message-Moved_example :
    Moved
      (connected true false waiting)
      (unsafe false)
      data_type
      true
      listen
      (on_message clock api routes (connected true false waiting) first_data).listener
unfolding Listener.new Address-discrete message_type verify_signature Stream.new lookup
on_message-Moved_example =
    on_message-Moved clock api routes (unsafe true) first_data (connected true false waiting)
      waiting refl refl

-- Both nodes have dialed and have heard nothing.
abbrev dialing : Bool → Bool → VeilidStream demo
dialing here there = record (stream here there) { status = dial; remote_stream_id = 0 }

-- Two safe nodes: their own addresses have owner keys, and the other's is known without them.
abbrev home : Bool → Address demo
home here = safe here (some here) (active 4)

abbrev has_dialed : Bool → Bool → VeilidListener demo
has_dialed here there = record (idle here) {
  local_address = some (home here);
  streams = (safe there none missing, dialing here there) ∷ [];
}

abbrev dial_from : Bool → Message demo
dial_from from = record (message from 6 dial_tag []) { address = safe from none missing }

dialed :
    HasDialed
      (has_dialed true false)
      (home true)
      (home false)
      (dialing true false)
      (dial_from false)
unfolding Listener.new Address-discrete message_type Stream.new lookup
dialed = (refl, refl, refl, refl, refl, refl)

dialed_back :
    HasDialed (has_dialed false true) (home false) (home true) (dialing false true) (dial_from true)
unfolding Listener.new Address-discrete message_type Stream.new lookup
dialed_back = (refl, refl, refl, refl, refl, refl)

texts_differ : key_string (home true) ≢ key_string (home false)
texts_differ e = true≢false (ap (same_text (b'T' ∷ [])) e)

simultaneous_dial_example :
    let first =
      status_at
        (on_message clock api routes (has_dialed true false) (dial_from false)).listener
        (safe false none missing) in
    let second =
      status_at
        (on_message clock api routes (has_dialed false true) (dial_from true)).listener
        (safe true none missing) in
    ((first ≡ some listen) × (second ≡ some dial)) ⊎ ((first ≡ some dial) × (second ≡ some listen))
simultaneous_dial_example =
    simultaneous_dial clock clock api api routes routes (has_dialed true false)
      (has_dialed false true) (home true) (home false) (dialing true false) (dialing false true)
      (dial_from false) (dial_from true) dialed dialed_back texts_differ

-- A dial that reaches a listener with no streams.
on_app_message-send_dial_example :
    Accepted routes
      (unsafe true)
      (stream false true)
      (node_id false)
      9
      true
      (on_app_message clock api routes (idle true) (dial_packet (stream false true)))
unfolding Listener.new Address-discrete Stream.new to_target lookup
on_app_message-send_dial_example =
    on_app_message-send_dial demo-Laws clock api routes (idle true) (unsafe true)
      (stream false true) (node_id false) (omega arith) refl refl refl

-- A listener on unsafe routes whose node knows its id.
abbrev named : VeilidListener demo
named = record (idle true) {
  transport_type = unsafe_type;
  node_status = record {
    my_node_id = some true;
    is_attached = false;
    public_internet_ready = true;
  };
}

on_attachment-cases_example :
    let h = on_attachment clock api named attached_good true in
    ((a : Address demo) × (own clock api named ≡ some a)
      × (named.status ≡ offline)
      × (true ≡ true)
      × (¬ IsDown attached_good)
      × IsAnnounced named a h)
    ⊎ (((own clock api named ≡ none)
          ⊎ (named.status ≡ online)
          ⊎ (true ≡ false)
          ⊎ IsDown attached_good)
        × IsSilent named h)
on_attachment-cases_example = on_attachment-cases clock api named attached_good true

-- The answer to a dial.
on_app_message-send_listen_example : Connected {X = demo} (unsafe false) 5 false (
    on_app_message clock api routes
      (connected true false (dialing true false))
      (listen_packet (stream false true)))
unfolding Listener.new Address-discrete Stream.new lookup
on_app_message-send_listen_example =
    on_app_message-send_listen demo-Laws clock api routes
      (connected true false (dialing true false)) (unsafe true) (dialing true false)
      (stream false true) (omega arith) refl refl refl refl

-- A safe listener that has lost its route.
abbrev lost : VeilidListener demo
lost = record (idle true) { local_address = some owned }

update_target_task-settles_example :
    let n = update_target_task api 9 9 owned lost in
    ((t : Target demo) × (update_safe api owned ≡ some t)
      × (n.local_target ≡ some t)
      × (should_update_target 10 n ≡ false))
    ⊎ ((update_safe api owned ≡ none)
        × (n.local_target ≡ none)
        × (should_update_target 10 n ≡ true))
unfolding Listener.new
update_target_task-settles_example =
    update_target_task-settles lost true (some true) (active 4) refl refl api 9 9 10 (omega arith)
      (omega arith)

check_task-fails_example :
    should_update_target 10 (check_task api 9 true (some (private_route true)) lost) ≡ true
unfolding Listener.new
check_task-fails_example =
    check_task-fails lost true (some true) (active 4) refl refl api 9 10 (some (private_route true))
      refl (inr refl)

update_target-again_example :
    let n = (update_target 9 lost).0 in
    (n.target_status ≡ republishing 9) × (should_update_target 10 n ≡ true)
unfolding Listener.new
update_target-again_example =
    update_target-again lost true (some true) (active 4) refl refl 9 10 (inl refl)

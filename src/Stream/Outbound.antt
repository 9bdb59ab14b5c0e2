-- ===== src/Stream/Outbound.antt =====
-- src/stream.rs, outbound half: a write is framed into the outbound stream, the stream is cut into
-- numbered messages, and messages are sent until the other side has acknowledged them.
pub mod Packets
pub mod Queued
pub mod Retry
use libp2p_transport_veilid.Prelude.{
  ℕ, zero, suc, ◌+◌, ◌-◌, min, Bool, true, false, Option, none, some, List, [], ◌∷◌, ◌++◌, ltb, leb,
  ◌&&◌, not, if◌then◌else◌, length, take, drop, u32, ℕ_discrete,
}
use libp2p_transport_veilid.Prelude.Map.{Map, insert, modify}
use libp2p_transport_veilid.External.{External, Bytes, Payload}
use libp2p_transport_veilid.Config.{settings, from_secs}
use libp2p_transport_veilid.Address.{Address, Target, node_id, private_route, to_multiaddr}
use libp2p_transport_veilid.Stream.{
  VeilidStream, OutboundMessage, Effect, app_message, spawn_flush, task_panic, is_active,
  get_outbound_last_seq, get_inbound_received_seq, increment_outbound_last_seq,
}
use libp2p_transport_veilid.Stream.Frames.{to_le_bytes}

-- b"DIAL", b"LISTEN", b"STATUS", b"PING".
abbrev pub dial_tag : Bytes
dial_tag = b'D' ∷ b'I' ∷ b'A' ∷ b'L' ∷ []

abbrev pub listen_tag : Bytes
listen_tag = b'L' ∷ b'I' ∷ b'S' ∷ b'T' ∷ b'E' ∷ b'N' ∷ []

abbrev pub status_tag : Bytes
status_tag = b'S' ∷ b'T' ∷ b'A' ∷ b'T' ∷ b'U' ∷ b'S' ∷ []

abbrev pub ping_tag : Bytes
ping_tag = b'P' ∷ b'I' ∷ b'N' ∷ b'G' ∷ []

-- The answers of `api.routing_context()` and `with_safety`: whether they are `Ok`.
pub record Routing : Type 0 where
  pub routing_context : Bool
  pub with_safety : Bool

-- The bytes of an `Option`, where an error leaves the buffer empty.
abbrev pub or_empty : Option Bytes → Bytes
or_empty none = []
or_empty (some bytes) = bytes

unfoldable pub encode_message :
    (X : External) (received_seq msg_seq stream_id : ℕ) → Address X → Bytes → X.Keypair → Bytes
unfolding to_multiaddr
encode_message X received_seq msg_seq stream_id address msg_data keypair =
    elim (X.sign keypair msg_data) [
      | none ↦ []
      | some signature ↦ or_empty (
          X.encode_payload (record {
            received_seq = received_seq;
            msg_seq = msg_seq;
            stream_id = stream_id;
            signature = signature;
            address = X.multiaddr_to_string (to_multiaddr address);
            msg_data = msg_data;
          }))
    ]

module _ {X : External} where
  -- The `unwrap` of `with_safety` panics in the task that awaits the sending.
  abbrev pub sending_panics : Routing → Target X → Bool
  sending_panics r (node_id key) = r.routing_context && not r.with_safety
  sending_panics r (private_route key) = false

  abbrev pub hand_over : Routing → Target X → Bytes → List (Effect X)
  hand_over r (node_id key) message_data =
      if r.with_safety then app_message (node_id key) message_data ∷ [] else task_panic ∷ []
  hand_over r (private_route key) message_data = app_message (private_route key) message_data ∷ []

  unfoldable pub send_message_to_remote : Routing → VeilidStream X → Bytes → List (Effect X)
  send_message_to_remote r s message_data =
      if r.routing_context then hand_over r s.remote_target message_data else []

  -- A control message: a tag, then this node's public key.
  abbrev pub send_control : Routing → VeilidStream X → Bytes → List (Effect X)
  send_control r s tag = send_message_to_remote r s (
      encode_message X 0 0 s.my_stream_id s.local_address
        (tag ++ X.encode_protobuf (X.public s.my_keypair)) s.my_keypair)

  unfoldable pub send_dial : Routing → VeilidStream X → List (Effect X)
  unfolding encode_message send_message_to_remote
  send_dial r s = send_control r s dial_tag

  unfoldable pub send_listen : Routing → VeilidStream X → List (Effect X)
  unfolding encode_message send_message_to_remote
  send_listen r s = send_control r s listen_tag

  unfoldable pub send_status_if_stale : Routing → ℕ → VeilidStream X → List (Effect X)
  unfolding encode_message send_message_to_remote is_active get_outbound_last_seq
      get_inbound_received_seq
  send_status_if_stale r now s =
      if leb (from_secs settings.connection_keepalive_timeout) (now - s.outbound_last_timestamp)
        && is_active now s
      then send_message_to_remote r s (
          encode_message X (get_inbound_received_seq s) (get_outbound_last_seq s) s.my_stream_id
            s.local_address status_tag s.my_keypair)
      else []

  -- `data.len() as u32` keeps the low 32 bits of the length.
  unfoldable pub insert_to_outbound_stream :
      ℕ → VeilidStream X → Bytes → VeilidStream X × List (Effect X)
  unfolding is_active
  insert_to_outbound_stream now s bytes =
      let t = record s {
        outbound_stream = (s.outbound_stream ++ to_le_bytes (u32 (length bytes))) ++ bytes;
      } in
      (t, if is_active now t then spawn_flush ∷ [] else [])

  -- The body of the loop of `generate_messages` for a slice that is not empty.
  unfoldable pub push_message : VeilidStream X → Bytes → VeilidStream X
  unfolding increment_outbound_last_seq get_outbound_last_seq insert
  push_message s msg =
      let t = increment_outbound_last_seq s in
      let seq = get_outbound_last_seq t in
      record t {
        outbound_message_queue =
            insert ℕ_discrete seq (record { seq = seq; msg = msg; last_try_send = none })
              t.outbound_message_queue;
      }

  -- `while stream.len() > 0`. Every round takes a byte at least, so the stream's length is enough.
  unfoldable pub generate_loop : (data_limit fuel : ℕ) → VeilidStream X → VeilidStream X
  unfolding push_message
  generate_loop data_limit zero s = s
  generate_loop data_limit (suc fuel) s =
      let drain_limit = min data_limit (length s.outbound_stream) in
      let msg = take drain_limit s.outbound_stream in
      let t = record s { outbound_stream = drop drain_limit s.outbound_stream } in
      let next =
        generate_loop data_limit fuel (if ltb 0 (length msg) then push_message t msg else t) in
      if ltb 0 (length s.outbound_stream) then next else s

  unfoldable pub generate_messages : VeilidStream X → VeilidStream X
  unfolding generate_loop
  generate_messages s =
      generate_loop settings.transport_stream_packet_data_size_bytes (length s.outbound_stream) s

-- `now.duration_since(last_try_send)`, where a message never sent counts as one second overdue.
abbrev pub since_last_try : ℕ → Option ℕ → ℕ
since_last_try now none = from_secs settings.message_retry_timeout + from_secs 1
since_last_try now (some t) = now - t

abbrev pub is_due : ℕ → OutboundMessage → Bool
is_due now m = leb (from_secs settings.message_retry_timeout) (since_last_try now m.last_try_send)

-- `values().filter(…).cloned().collect()`.
unfoldable pub due_messages : ℕ → Map ℕ OutboundMessage → List OutboundMessage
due_messages now [] = []
due_messages now ((k, m) ∷ queue) =
    if is_due now m then m ∷ due_messages now queue else due_messages now queue

unfoldable pub mark_sent : ℕ → List OutboundMessage → Map ℕ OutboundMessage → Map ℕ OutboundMessage
unfolding modify
mark_sent now [] queue = queue
mark_sent now (m ∷ messages) queue =
    mark_sent now messages
      (modify ℕ_discrete m.seq (λ e. record e { last_try_send = some now }) queue)

module _ {X : External} where
  -- The loop that sends: its effects, and whether it stopped in the panic on a message's size.
  unfoldable pub send_each :
      Routing → VeilidStream X → List OutboundMessage → List (Effect X) × Bool
  unfolding send_message_to_remote encode_message get_inbound_received_seq
  send_each r s [] = ([], false)
  send_each r s (m ∷ messages) =
      let rest = send_each r s messages in
      if ltb settings.veilid_network_message_limit_bytes (length m.msg) then ([], true) else (
        send_message_to_remote r s (
              encode_message X (get_inbound_received_seq s) m.seq s.my_stream_id s.local_address
                m.msg s.my_keypair)
            ++ rest.0,
        rest.1,
      )

  unfoldable pub send_messages :
      Routing → ℕ → VeilidStream X → VeilidStream X × List (Effect X) × Bool
  unfolding due_messages mark_sent send_each
  send_messages r now s =
      let messages_to_send = due_messages now s.outbound_message_queue in
      let t = record s {
        outbound_message_queue = mark_sent now messages_to_send s.outbound_message_queue;
      } in
      let (effects, panicked) = send_each r t messages_to_send in (t, effects, panicked)

  -- `generate_messages().send_messages()`, the task that a write spawns.
  unfoldable pub flush : Routing → ℕ → VeilidStream X → VeilidStream X × List (Effect X) × Bool
  unfolding generate_messages send_messages
  flush r now s = send_messages r now (generate_messages s)

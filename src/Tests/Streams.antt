-- ===== src/Tests/Streams.antt =====
-- Streams that hold some data.
use libp2p_transport_veilid.Prelude.{
  ℕ, ◌<◌, ◌≤◌, ◌≡◌, ◌⊎◌, refl, true, false, none, some, List, [], ◌∷◌, ◌++◌, flatten, arith,
  ℕ_discrete, length, All,
}
use libp2p_transport_veilid.Prelude.Map.{lookup}
use libp2p_transport_veilid.External.{Bytes}
use libp2p_transport_veilid.Stream.{VeilidStream, OutboundMessage, new, wake}
use libp2p_transport_veilid.Stream.Frames.{frames}
use libp2p_transport_veilid.Stream.Inbound.{update_inbound_stream, drain_queue, recv_message}
use libp2p_transport_veilid.Stream.Inbound.Slices.{update_inbound_stream-frames}
use libp2p_transport_veilid.Stream.Inbound.Queue.{Drained, packet, drain_queue-Drained}
use libp2p_transport_veilid.Stream.Outbound.{is_due, generate_messages, send_messages}
use libp2p_transport_veilid.Stream.Outbound.Packets.{Sends, pieces}
use libp2p_transport_veilid.Stream.Outbound.Queued.{Queued, generate_messages-Queued}
use libp2p_transport_veilid.Stream.Outbound.Retry.{send_messages-waits}
use libp2p_transport_veilid.Connection.{poll_read}
use libp2p_transport_veilid.Connection.Wakeup.{poll_read-wakes}
use libp2p_transport_veilid.Tests.Demo.{demo, routes, stream}

abbrev two_node_stream : VeilidStream demo
two_node_stream = stream true false

-- A whole slice, and two bytes of the next header.
abbrev slices : List Bytes
slices = (b'h' ∷ b'i' ∷ []) ∷ []

abbrev cut_in_header : VeilidStream demo
cut_in_header = record two_node_stream { inbound_buffer = 2 ∷ 0 ∷ 0 ∷ 0 ∷ b'h' ∷ b'i' ∷ 9 ∷ 9 ∷ [] }

update_inbound_stream-frames_example :
    update_inbound_stream cut_in_header
    ≡ (record cut_in_header { inbound_buffer = 9 ∷ 9 ∷ []; inbound_stream = [] }, [])
unfolding frames new
update_inbound_stream-frames_example =
    update_inbound_stream-frames cut_in_header slices (9 ∷ 9 ∷ []) refl (omega arith, tt) tt

-- Message 2 waits, message 1 has been received.
abbrev messages : List Bytes
messages = (1 ∷ 2 ∷ []) ∷ (3 ∷ []) ∷ []

abbrev one_waits : VeilidStream demo
one_waits = record two_node_stream {
  inbound_buffer = 1 ∷ 2 ∷ [];
  inbound_message_queue = (2, 3 ∷ []) ∷ [];
}

second_waits :
    (k : ℕ) (bytes : Bytes)
    → lookup ℕ_discrete k one_waits.inbound_message_queue ≡ some bytes
    → packet messages k ≡ some bytes
unfolding lookup
second_waits k bytes h = ground arith

drain_queue-Drained_example : Drained messages [] one_waits 1 (drain_queue 1 one_waits 1)
unfolding flatten
drain_queue-Drained_example =
    drain_queue-Drained messages [] (omega arith) 1 one_waits 1 (omega arith) (omega arith)
      second_waits refl

-- Nothing has been sent yet, and three bytes wait to be cut.
abbrev to_cut : VeilidStream demo
to_cut = record two_node_stream { outbound_stream = 1 ∷ 2 ∷ 3 ∷ [] }

none_queued : Sends [] to_cut
unfolding new lookup
none_queued = record { numbered = refl; queued = λ k m h. ground arith }

generate_messages-Queued_example :
    Queued
      (length {A = Bytes} [])
      (pieces (1 ∷ 2 ∷ 3 ∷ []))
      to_cut.outbound_message_queue
      (generate_messages to_cut).outbound_message_queue
    × Sends ([] ++ pieces to_cut.outbound_stream) (generate_messages to_cut)
    × ((generate_messages to_cut).outbound_stream ≡ [])
    × (flatten ([] ++ pieces to_cut.outbound_stream) ≡ 1 ∷ 2 ∷ 3 ∷ [])
    × All (λ piece. (0 < length piece) × (length piece ≤ 32623)) (pieces to_cut.outbound_stream)
unfolding flatten
generate_messages-Queued_example = generate_messages-Queued [] to_cut (omega arith) none_queued

-- One message waits and was never sent.
abbrev first : OutboundMessage
first = record { seq = 1; msg = 7 ∷ []; last_try_send = none }

abbrev to_send : VeilidStream demo
to_send = record two_node_stream { outbound_last_seq = 1; outbound_message_queue = (1, first) ∷ [] }

first_queued : Sends ((7 ∷ []) ∷ []) to_send
unfolding lookup
first_queued = record { numbered = refl; queued = λ k m h. ground arith }

send_messages-waits_example :
    (n : OutboundMessage) × (lookup ℕ_discrete 1
        (send_messages routes 8 to_send).0.outbound_message_queue
      ≡ some n)
    × (n.msg ≡ 7 ∷ [])
    × (is_due 9 n ≡ false)
unfolding lookup ℕ_discrete
send_messages-waits_example =
    send_messages-waits routes 8 9 1 ((7 ∷ []) ∷ []) to_send first first_queued refl refl
      (omega arith)

-- Nothing to read: the task 4 waits, and the message that ends the slice wakes it.
poll_read-wakes_example :
    let t = (poll_read 1 4 two_node_stream (0 ∷ 0 ∷ [])).0 in
    let u = recv_message 2 t 0 1 (1 ∷ 0 ∷ 0 ∷ 0 ∷ 5 ∷ []) in
    (t.inbound_stream ≡ []) × ((u.0.inbound_stream ≡ []) ⊎ (u.1 ≡ wake 4 ∷ []))
unfolding poll_read new
poll_read-wakes_example =
    poll_read-wakes 1 4 2 0 1 two_node_stream (0 ∷ 0 ∷ []) (1 ∷ 0 ∷ 0 ∷ 0 ∷ 5 ∷ []) refl

-- ===== src/Session/Unmoved.antt =====
-- Steps that leave a side's half as it is: the setters, and what the reader says itself.
use libp2p_transport_veilid.Prelude.{
  ◌≤◌, ◌≡◌, refl, sym, ap, subst, ◌∙◌, take, List, ◌++◌, flatten, length,
}
use libp2p_transport_veilid.External.{External, Bytes}
use libp2p_transport_veilid.Stream
use libp2p_transport_veilid.Stream.{VeilidStream}
use libp2p_transport_veilid.Stream.Frames.{frames, IsIncomplete}
use libp2p_transport_veilid.Stream.Outbound.{
  insert_to_outbound_stream, generate_messages, send_messages,
}
use libp2p_transport_veilid.Stream.Outbound.Packets.{Sends}
use libp2p_transport_veilid.Stream.Inbound.{remove_sent_messages_from_queue}
use libp2p_transport_veilid.Stream.Inbound.Queue.{IsStored}
use libp2p_transport_veilid.Stream.Inbound.Delivery.{Receives}
use libp2p_transport_veilid.Session.{
  Setter, status, remote_id, remote_key, received_at, sent_at, waits, Talk,
}
use libp2p_transport_veilid.Stream.Statuses.{generate_messages_keeps}
use libp2p_transport_veilid.Connection.{register}

module _ {X : External} where
  pub Setter-Sends :
      {log : List Bytes} {s t : VeilidStream X} → Setter s t → Sends log s → Sends log t
  unfolding Stream.update_status Stream.update_remote_stream_id Stream.update_remote_public_key
      Stream.update_inbound_last_timestamp_to_now Stream.update_outbound_last_timestamp_to_now
      register
  Setter-Sends (status st) v = record { numbered = v.numbered; queued = v.queued }
  Setter-Sends (remote_id id) v = record { numbered = v.numbered; queued = v.queued }
  Setter-Sends (remote_key key) v = record { numbered = v.numbered; queued = v.queued }
  Setter-Sends (received_at now) v = record { numbered = v.numbered; queued = v.queued }
  Setter-Sends (waits task) v = record { numbered = v.numbered; queued = v.queued }
  Setter-Sends (sent_at now) v = record { numbered = v.numbered; queued = v.queued }

  -- A stream with the same inbound half receives the same.
  Receives-same :
      (log writes : List Bytes) (output : Bytes) (s t : VeilidStream X)
      → t.inbound_received_seq ≡ s.inbound_received_seq
      → t.inbound_message_queue ≡ s.inbound_message_queue
      → t.inbound_buffer ≡ s.inbound_buffer
      → t.inbound_stream ≡ s.inbound_stream
      → Receives log writes output s
      → Receives log writes output t
  Receives-same log writes output s t seq queue buffer stream v = record {
    whole = v.whole;
    more = v.more;
    within = subst (λ n. n ≤ length log) (sym seq) v.within;
    stored = subst (λ q. IsStored log q) (sym queue) v.stored;
    joined = v.joined;
    received =
        ap (λ b. frames v.whole ++ b) buffer
        ∙ v.received
        ∙ ap (λ n. flatten (take n log)) (sym seq);
    readable = ap (λ b. output ++ b) stream ∙ v.readable;
    incomplete = subst IsIncomplete (sym buffer) v.incomplete;
  }

  pub Setter-Receives :
      {log writes : List Bytes} {output : Bytes} {s t : VeilidStream X}
      → Setter s t
      → Receives log writes output s
      → Receives log writes output t
  unfolding Stream.update_status Stream.update_remote_stream_id Stream.update_remote_public_key
      Stream.update_inbound_last_timestamp_to_now Stream.update_outbound_last_timestamp_to_now
      register
  Setter-Receives (status st) v = Receives-same _ _ _ _ _ refl refl refl refl v
  Setter-Receives (remote_id id) v = Receives-same _ _ _ _ _ refl refl refl refl v
  Setter-Receives (remote_key key) v = Receives-same _ _ _ _ _ refl refl refl refl v
  Setter-Receives (received_at now) v = Receives-same _ _ _ _ _ refl refl refl refl v
  Setter-Receives (waits task) v = Receives-same _ _ _ _ _ refl refl refl refl v
  Setter-Receives (sent_at now) v = Receives-same _ _ _ _ _ refl refl refl refl v

  -- The outbound half is no part of what is received.
  pub Talk-Receives :
      {log writes : List Bytes} {output : Bytes} {s t : VeilidStream X}
      → Talk s t
      → Receives log writes output s
      → Receives log writes output t
  unfolding insert_to_outbound_stream send_messages remove_sent_messages_from_queue
      Stream.update_outbound_delivered_seq
  Talk-Receives (Talk.write now bytes) v = Receives-same _ _ _ _ _ refl refl refl refl v
  Talk-Receives {s = s} Talk.generate v =
      Receives-same _ _ _ s (generate_messages s)
        (generate_messages_keeps (λ t. t.inbound_received_seq) (λ t b q n. refl) s)
        (generate_messages_keeps (λ t. t.inbound_message_queue) (λ t b q n. refl) s)
        (generate_messages_keeps (λ t. t.inbound_buffer) (λ t b q n. refl) s)
        (generate_messages_keeps (λ t. t.inbound_stream) (λ t b q n. refl) s) v
  Talk-Receives (Talk.send r now) v = Receives-same _ _ _ _ _ refl refl refl refl v
  Talk-Receives (Talk.acknowledge delivered_seq) v = Receives-same _ _ _ _ _ refl refl refl refl v

-- ===== src/Session.antt =====
-- Two streams and the network between them: what one side writes and the other side reads. A step
-- is one operation of src/stream.rs on one side. The network may lose, repeat and reorder: any
-- message that was ever generated may arrive at any time.
pub mod Sender
pub mod Receiver
pub mod Unmoved
pub mod Invariant
pub mod Delivered
pub mod Sizes
pub mod Progress
pub mod Channel
use libp2p_transport_veilid.Prelude.{
  ℕ, ◌+◌, ◌<◌, ◌^◌, ◌≡◌, Option, none, some, List, [], ◌∷◌, ◌++◌, length, take,
}
use libp2p_transport_veilid.External.{External, Bytes}
use libp2p_transport_veilid.Stream
use libp2p_transport_veilid.Stream.{VeilidStream, StreamStatus}
use libp2p_transport_veilid.Connection.{register}
use libp2p_transport_veilid.Stream.Inbound.{
  recv_message, read_inbound_stream, remove_sent_messages_from_queue,
}
use libp2p_transport_veilid.Stream.Inbound.Queue.{packet}
use libp2p_transport_veilid.Stream.Outbound.{
  Routing, insert_to_outbound_stream, generate_messages, send_messages,
}
use libp2p_transport_veilid.Stream.Outbound.Packets.{pieces}

-- Beside the streams, the history: the writes, the messages generated, and the bytes read.
pub record Session (X : External) : Type 0 where
  pub sender : VeilidStream X
  pub receiver : VeilidStream X
  pub writes : List Bytes
  pub log : List Bytes
  pub output : Bytes

-- The bytes that a read puts at the front of the caller's buffer.
abbrev pub bytes_read : (X : External) → VeilidStream X × Bytes × Option ℕ → Bytes
bytes_read X r = elim r.2 [ none ↦ [] | some n ↦ take n r.1 ]

-- The setters that the handshake, the timers and the reader's poll call.
pub data Setter {X : External} (s : VeilidStream X) : VeilidStream X → Type 0 where
  status : (st : StreamStatus) → Setter s (Stream.update_status s st)
  remote_id : (id : ℕ) → Setter s (Stream.update_remote_stream_id s id)
  remote_key : (key : X.PublicKey) → Setter s (Stream.update_remote_public_key s key)
  received_at : (now : ℕ) → Setter s (Stream.update_inbound_last_timestamp_to_now now s)
  waits : (task : ℕ) → Setter s (register task s)
  sent_at : (now : ℕ) → Setter s (Stream.update_outbound_last_timestamp_to_now now s)

-- The operations of the outbound half.
pub data Talk {X : External} (s : VeilidStream X) : VeilidStream X → Type 0 where
  write : (now : ℕ) (bytes : Bytes) → Talk s (insert_to_outbound_stream now s bytes).0
  generate : Talk s (generate_messages s)
  send : (r : Routing) (now : ℕ) → Talk s (send_messages r now s).0
  acknowledge :
      (delivered_seq : ℕ)
      → Talk s
          (remove_sent_messages_from_queue (Stream.update_outbound_delivered_seq s delivered_seq))

pub data Step {X : External} (σ : Session X) : Session X → Type 0 where
  write :
      (now : ℕ) (bytes : Bytes)
      → length bytes < 2 ^ 32
      → Step σ (record σ {
        sender = (insert_to_outbound_stream now σ.sender bytes).0;
        writes = σ.writes ++ bytes ∷ [];
      })
  generate :
      length σ.log + length σ.sender.outbound_stream < 2 ^ 32
      → Step σ (record σ {
        sender = generate_messages σ.sender;
        log = σ.log ++ pieces σ.sender.outbound_stream;
      })
  send : (r : Routing) (now : ℕ) → Step σ (record σ { sender = (send_messages r now σ.sender).0 })
  acknowledge :
      (delivered_seq : ℕ)
      → Step σ (record σ {
        sender =
            remove_sent_messages_from_queue
              (Stream.update_outbound_delivered_seq σ.sender delivered_seq);
      })
  deliver :
      (now delivered_seq seq : ℕ) (bytes : Bytes)
      → packet σ.log seq ≡ some bytes
      → Step σ (record σ { receiver = (recv_message now σ.receiver delivered_seq seq bytes).0 })
  read :
      (buf : Bytes)
      → Step σ (record σ {
        receiver = (read_inbound_stream σ.receiver buf).0;
        output = σ.output ++ bytes_read X (read_inbound_stream σ.receiver buf);
      })
  -- What the sender's inbound half does: a message of the other direction, and a read.
  hear :
      (now delivered_seq seq : ℕ) (bytes : Bytes)
      → Step σ (record σ { sender = (recv_message now σ.sender delivered_seq seq bytes).0 })
  consume : (buf : Bytes) → Step σ (record σ { sender = (read_inbound_stream σ.sender buf).0 })
  -- What the receiver's outbound half does.
  talk : {t : VeilidStream X} → Talk σ.receiver t → Step σ (record σ { receiver = t })
  set_sender : {t : VeilidStream X} → Setter σ.sender t → Step σ (record σ { sender = t })
  set_receiver : {t : VeilidStream X} → Setter σ.receiver t → Step σ (record σ { receiver = t })

pub data Reach {X : External} (σ : Session X) : Session X → Type 0 where
  here : Reach σ σ
  next : {τ υ : Session X} → Reach σ τ → Step τ υ → Reach σ υ

-- Two new streams, before the first write.
pub record IsFresh {X : External} (σ : Session X) : Type 0 where
  pub no_writes : σ.writes ≡ []
  pub no_log : σ.log ≡ []
  pub no_output : σ.output ≡ []
  pub sender_seq : σ.sender.outbound_last_seq ≡ 0
  pub sender_queue : σ.sender.outbound_message_queue ≡ []
  pub sender_stream : σ.sender.outbound_stream ≡ []
  pub receiver_seq : σ.receiver.inbound_received_seq ≡ 0
  pub receiver_queue : σ.receiver.inbound_message_queue ≡ []
  pub receiver_buffer : σ.receiver.inbound_buffer ≡ []
  pub receiver_stream : σ.receiver.inbound_stream ≡ []

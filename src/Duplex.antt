-- ===== src/Duplex.antt =====
-- Two streams that both write and read: src/stream.rs on the two ends of one connection. A message
-- carries data one way and, with it, the acknowledgement of what was received the other way.
pub mod Delivered
use libp2p_transport_veilid.Prelude.{ℕ, ◌+◌, ◌<◌, ◌^◌, ◌≡◌, some, List, [], ◌∷◌, ◌++◌, length}
use libp2p_transport_veilid.External.{External, Bytes}
use libp2p_transport_veilid.Stream
use libp2p_transport_veilid.Stream.{VeilidStream}
use libp2p_transport_veilid.Stream.Inbound.{
  recv_message, read_inbound_stream, remove_sent_messages_from_queue,
}
use libp2p_transport_veilid.Stream.Inbound.Queue.{packet}
use libp2p_transport_veilid.Stream.Outbound.{
  Routing, insert_to_outbound_stream, generate_messages, send_messages,
}
use libp2p_transport_veilid.Stream.Outbound.Packets.{pieces}
use libp2p_transport_veilid.Session.{Session, Setter, IsFresh, bytes_read}

-- One end, with its history: what it wrote, the messages that it generated, what was read from it.
pub record Endpoint (X : External) : Type 0 where
  pub stream : VeilidStream X
  pub writes : List Bytes
  pub log : List Bytes
  pub output : Bytes

-- What one end does, where the other end's messages are `peer_log`. A message of the peer arrives
-- with any acknowledgement, and a status message is an acknowledgement alone.
pub data Move {X : External} (peer_log : List Bytes) (e : Endpoint X) : Endpoint X → Type 0 where
  write :
      (now : ℕ) (bytes : Bytes)
      → length bytes < 2 ^ 32
      → Move peer_log e (record e {
        stream = (insert_to_outbound_stream now e.stream bytes).0;
        writes = e.writes ++ bytes ∷ [];
      })
  generate :
      length e.log + length e.stream.outbound_stream < 2 ^ 32
      → Move peer_log e (record e {
        stream = generate_messages e.stream;
        log = e.log ++ pieces e.stream.outbound_stream;
      })
  send :
      (r : Routing) (now : ℕ)
      → Move peer_log e (record e { stream = (send_messages r now e.stream).0 })
  receive :
      (now delivered_seq seq : ℕ) (bytes : Bytes)
      → packet peer_log seq ≡ some bytes
      → Move peer_log e
          (record e { stream = (recv_message now e.stream delivered_seq seq bytes).0 })
  status_message :
      (delivered_seq : ℕ)
      → Move peer_log e (record e {
        stream =
            remove_sent_messages_from_queue
              (Stream.update_outbound_delivered_seq e.stream delivered_seq);
      })
  read :
      (buf : Bytes)
      → Move peer_log e (record e {
        stream = (read_inbound_stream e.stream buf).0;
        output = e.output ++ bytes_read X (read_inbound_stream e.stream buf);
      })
  set : {t : VeilidStream X} → Setter e.stream t → Move peer_log e (record e { stream = t })

-- The ends take turns in any order.
pub data Run {X : External} (a b : Endpoint X) : Endpoint X → Endpoint X → Type 0 where
  here : Run a b a b
  left : {c d c' : Endpoint X} → Run a b c d → Move d.log c c' → Run a b c' d
  right : {c d d' : Endpoint X} → Run a b c d → Move c.log d d' → Run a b c d'

-- One direction of the connection.
abbrev pub direction : {X : External} → Endpoint X → Endpoint X → Session X
direction from to = record {
  sender = from.stream;
  receiver = to.stream;
  writes = from.writes;
  log = from.log;
  output = to.output;
}

-- Two new ends.
abbrev pub AreFresh : {X : External} → Endpoint X → Endpoint X → Type 0
AreFresh a b = IsFresh (direction a b) × IsFresh (direction b a)

-- ===== src/Duplex/Delivered.antt =====
-- Both directions deliver, each with the acknowledgements of the other.
use libp2p_transport_veilid.Prelude.{◌≡◌, List, ◌++◌, flatten}
use libp2p_transport_veilid.External.{External, Bytes}
use libp2p_transport_veilid.Stream.Inbound.Delivery.{HeadersWhole}
use libp2p_transport_veilid.Session
use libp2p_transport_veilid.Session.{
  Step, Reach, Talk, set_sender, set_receiver, hear, consume, talk, deliver,
}
use libp2p_transport_veilid.Session.Delivered.{delivered_prefix}
use libp2p_transport_veilid.Duplex.{
  Endpoint, Move, write, generate, send, receive, status_message, read, set, Run, here, left, right,
  direction, AreFresh,
}

module _ {X : External} where
  -- A move of one end is a step of the direction that it sends in.
  Move-sends :
      {peer_log : List Bytes} {a a' : Endpoint X} (b : Endpoint X)
      → Move peer_log a a'
      → Step (direction a b) (direction a' b)
  Move-sends b (write now bytes small) = Session.Step.write now bytes small
  Move-sends b (generate room) = Session.Step.generate room
  Move-sends b (send r now) = Session.Step.send r now
  Move-sends b (receive now delivered_seq seq bytes p) = hear now delivered_seq seq bytes
  Move-sends b (status_message delivered_seq) = Session.Step.acknowledge delivered_seq
  Move-sends b (read buf) = consume buf
  Move-sends b (set st) = set_sender st

  -- And of the direction that it receives from.
  Move-receives :
      (a : Endpoint X) {b b' : Endpoint X} → Move a.log b b' → Step (direction a b) (direction a b')
  Move-receives a (write now bytes small) = talk (Talk.write now bytes)
  Move-receives a (generate room) = talk Talk.generate
  Move-receives a (send r now) = talk (Talk.send r now)
  Move-receives a (receive now delivered_seq seq bytes p) = deliver now delivered_seq seq bytes p
  Move-receives a (status_message delivered_seq) = talk (Talk.acknowledge delivered_seq)
  Move-receives a (read buf) = Session.Step.read buf
  Move-receives a (set st) = set_receiver st

  pub Run-Reach :
      {a b c d : Endpoint X}
      → Run a b c d
      → Reach (direction a b) (direction c d) × Reach (direction b a) (direction d c)
  Run-Reach here = (Reach.here, Reach.here)
  Run-Reach (left {c} {d} run move) =
      let (there, back) = Run-Reach run in
      (Reach.next there (Move-sends d move), Reach.next back (Move-receives d move))
  Run-Reach (right {c} {d} run move) =
      let (there, back) = Run-Reach run in
      (Reach.next there (Move-receives c move), Reach.next back (Move-sends c move))

  -- The bytes of an end's peer that it has read or can read are a prefix of what the peer wrote.
  abbrev pub Delivers : Endpoint X → Endpoint X → Type 0
  Delivers from to =
      (more : Bytes) × ((to.output ++ to.stream.inbound_stream) ++ more ≡ flatten from.writes)

  -- On a connection of two new streams that both write and read, and whatever the network loses,
  -- repeats or reorders: at every point each side has read, and can read, a prefix of what the
  -- other side wrote, provided that no message of either side ends inside a slice's header.
  pub duplex-Delivers :
      {a b c d : Endpoint X}
      → AreFresh a b
      → Run a b c d
      → HeadersWhole c.log
      → HeadersWhole d.log
      → Delivers c d × Delivers d c
  duplex-Delivers fresh run headers headers' =
      let (there, back) = Run-Reach run in
      (delivered_prefix fresh.0 there headers, delivered_prefix fresh.1 back headers')

-- ===== src/Connection.antt =====
-- src/connection.rs: a connection reads from and writes to its stream.
pub mod Wakeup
use libp2p_transport_veilid.Prelude.{
  ℕ, Bool, Option, none, some, List, [], ◌∷◌, length, if◌then◌else◌,
}
use libp2p_transport_veilid.External.{External, Bytes}
use libp2p_transport_veilid.Address.{Address, Target}
use libp2p_transport_veilid.Stream.{VeilidStream, Effect, is_expired}
use libp2p_transport_veilid.Stream.Inbound.{read_inbound_stream}
use libp2p_transport_veilid.Stream.Outbound.{Routing, insert_to_outbound_stream, send_dial}

-- `std::task::Poll`.
pub data Poll {ℓ} (A : Type ℓ) : Type ℓ where
  pending : Poll A
  ready : A → Poll A

-- `io::Result`; the one error is "Stream is inactive".
pub data IoResult {ℓ} (A : Type ℓ) : Type ℓ where
  ok : A → IoResult A
  inactive : IoResult A

pub record VeilidConnection (X : External) : Type 0 where
  pub local_address : Address X
  pub remote_target : Target X
  pub stream : VeilidStream X

unfoldable pub new : (X : External) → Address X → Target X → VeilidStream X → VeilidConnection X
new X local_address remote_target stream = record {
  local_address = local_address;
  remote_target = remote_target;
  stream = stream;
}

module _ {X : External} where
  unfoldable pub connect : Routing → VeilidConnection X → List (Effect X)
  unfolding send_dial
  connect r c = send_dial r c.stream

  -- The task to wake is set after the stream's lock is released: two steps, `read_inbound_stream`
  -- and then this one.
  unfoldable pub register : ℕ → VeilidStream X → VeilidStream X
  register task s = record s { waker = some task }

  unfoldable pub poll_read :
      (now task : ℕ) → VeilidStream X → Bytes → VeilidStream X × Bytes × Poll (IoResult ℕ)
  unfolding is_expired read_inbound_stream register
  poll_read now task s buf =
      let (t, filled, count) = read_inbound_stream s buf in
      let polled : VeilidStream X × Bytes × Poll (IoResult ℕ) = elim count [
        | none ↦ (register task t, filled, pending)
        | some readable ↦ (t, filled, ready (ok readable))
      ] in
      if is_expired now s then (s, buf, ready inactive) else polled

  -- The stream, what it spawns, and the answer.
  unfoldable pub poll_write :
      ℕ → VeilidStream X → Bytes → VeilidStream X × List (Effect X) × Poll (IoResult ℕ)
  unfolding is_expired insert_to_outbound_stream
  poll_write now s buf =
      let (t, effects) = insert_to_outbound_stream now s buf in
      if is_expired now s then (s, [], ready inactive) else (t, effects, ready (ok (length buf)))

-- Neither is used: a flush is done at once, a close never is.
unfoldable pub poll_flush : Poll (IoResult (Unit {0}))
poll_flush = ready (ok tt)

unfoldable pub poll_close : Poll (IoResult (Unit {0}))
poll_close = pending

-- ===== src/Transport/Loop.antt =====
-- src/lib.rs: `poll` and what it calls.
use libp2p_transport_veilid.Prelude.{
  ℕ, Bool, true, false, Option, none, some, List, [], ◌∷◌, ◌++◌, if◌then◌else◌,
}
use libp2p_transport_veilid.External.{External}
use libp2p_transport_veilid.Connection.{Poll, pending, ready}
use libp2p_transport_veilid.Stream.{Effect}
use libp2p_transport_veilid.Stream.Outbound.{Routing}
use libp2p_transport_veilid.Listener.{Clock, TransportEvent}
use libp2p_transport_veilid.Listener.Events.{Pump, get_next_event}
use libp2p_transport_veilid.Transport.{VeilidTransport, Spawned, heartbeat}

-- A poll: the transport, its effects, its tasks, whether sending panicked, and the answer.
pub record Polled (X : External) : Type 0 where
  pub transport : VeilidTransport X
  pub effects : List (Effect X)
  pub spawned : List (Spawned X)
  pub failed : Bool
  pub answer : Poll (TransportEvent X)

module _ {X : External} where
  abbrev pub popped :
      VeilidTransport X → List (TransportEvent X) → VeilidTransport X × Option (TransportEvent X)
  popped t [] = (t, none)
  popped t (event ∷ rest) = (record t { events = rest }, some event)

  unfoldable pub pop_event : VeilidTransport X → VeilidTransport X × Option (TransportEvent X)
  pop_event t = popped t t.events

  -- `remove_listener` only answers that it did.
  unfoldable pub remove_listener : VeilidTransport X → (id : ℕ) → VeilidTransport X × Bool
  remove_listener t id = (t, true)

  -- `while let Ready(Some(())) = heartbeat.poll_next_unpin(cx)`: once for each tick that is due. A heartbeat
  -- that panics ends the poll: it has no answer, and `pending` stands for it.
  unfoldable pub heartbeats : Routing → List Clock → VeilidTransport X → Pump X → Polled X
  unfolding heartbeat
  heartbeats r [] t p = record {
    transport = record t { listener = some p };
    effects = [];
    spawned = [];
    failed = false;
    answer = pending;
  }
  heartbeats r (clock ∷ ticks) t p =
      let b = heartbeat clock r t.api t.transport_type p.listener in
      let rest = heartbeats r ticks t (record p { listener = b.listener }) in
      if b.failed
      then record {
        transport = record t { listener = some (record p { listener = b.listener }) };
        effects = b.effects;
        spawned = b.spawned;
        failed = true;
        answer = pending;
      }
      else record rest { effects = b.effects ++ rest.effects; spawned = b.spawned ++ rest.spawned }

  abbrev pub answered : VeilidTransport X → Poll (TransportEvent X) → Polled X
  answered t answer = record {
    transport = t;
    effects = [];
    spawned = [];
    failed = false;
    answer = answer;
  }

  -- An event of the listener is handed on. A listener that has ended, or has none, is beaten.
  abbrev pub poll_listener :
      Routing
      → List Clock
      → VeilidTransport X
      → Pump X
      → Poll (Option (TransportEvent X))
      → Polled X
  poll_listener r ticks t p (ready (some event)) =
      answered (record t { listener = some p }) (ready event)
  poll_listener r ticks t p (ready none) = heartbeats r ticks t p
  poll_listener r ticks t p pending = heartbeats r ticks t p

  abbrev pub poll_after : Routing → List Clock → VeilidTransport X → Option (Pump X) → Polled X
  poll_after r ticks t none = answered t pending
  poll_after r ticks t (some p) = let (q, next) = get_next_event p in poll_listener r ticks t q next

  abbrev pub poll_event :
      Routing → List Clock → VeilidTransport X → Option (TransportEvent X) → Polled X
  poll_event r ticks t (some event) = answered t (ready event)
  poll_event r ticks t none = poll_after r ticks t t.listener

  -- `ticks`: the readings of the clock at the heartbeats that are due.
  unfoldable pub poll : Routing → List Clock → VeilidTransport X → Polled X
  unfolding pop_event get_next_event heartbeats
  poll r ticks t = let (u, event) = pop_event t in poll_event r ticks u event

-- ===== src/Listener/Events.antt =====
-- src/listener.rs: `get_next_event`, the tasks that it spawns, and the ping to this node itself.
pub mod Order
pub mod Ping
use libp2p_transport_veilid.Prelude.{
  Bool, true, false, Option, none, some, List, [], ◌∷◌, ◌++◌, if◌then◌else◌,
}
use libp2p_transport_veilid.External.{External, Bytes}
use libp2p_transport_veilid.Address.{Address, Target, Api}
use libp2p_transport_veilid.Connection.{Poll, pending, ready}
use libp2p_transport_veilid.NodeStatus.{NodeStatus}
use libp2p_transport_veilid.Stream.{Effect, app_message}
use libp2p_transport_veilid.Stream.Outbound.{Routing, encode_message, ping_tag}
use libp2p_transport_veilid.Listener.{VeilidListener, Clock, TransportEvent}
use libp2p_transport_veilid.Listener.Message.{Handled, Outcome, polled, task_panicked}
use libp2p_transport_veilid.Listener.Updates.{VeilidUpdate, convert_update}

-- A listener with its channels: the updates that wait in `rx`, whether its senders are gone, the
-- tasks that were spawned and have not run, and what waits in `async_rx`.
pub record Pump (X : External) : Type 0 where
  pub listener : VeilidListener X
  pub rx : List (VeilidUpdate X)
  pub rx_ended : Bool
  pub tasks : List (VeilidUpdate X)
  pub async_rx : List (Poll (Option (TransportEvent X)))

module _ {X : External} where
  -- The second half: one result of the channel, whatever it is.
  abbrev pub next_result :
      Pump X → List (Poll (Option (TransportEvent X))) → Pump X × Poll (Option (TransportEvent X))
  next_result p [] = (p, pending)
  next_result p (result ∷ rest) = (record p { async_rx = rest }, result)

  -- The first half: one update, for which a task is spawned.
  abbrev pub next_update :
      Pump X → List (VeilidUpdate X) → Pump X × Poll (Option (TransportEvent X))
  next_update p (update ∷ rest) =
      next_result (record p { rx = rest; tasks = p.tasks ++ update ∷ [] }) p.async_rx
  next_update p [] = if p.rx_ended then (p, ready none) else next_result p p.async_rx

  unfoldable pub get_next_event : Pump X → Pump X × Poll (Option (TransportEvent X))
  get_next_event p = next_update p p.rx

  abbrev pub sent_result :
      List (Poll (Option (TransportEvent X))) → Outcome X → List (Poll (Option (TransportEvent X)))
  sent_result results (polled result) = results ++ result ∷ []
  sent_result results task_panicked = results

  -- A task that was spawned for an update runs, and sends its result unless it panics.
  unfoldable pub run_task :
      Clock → Api X → Routing → VeilidUpdate X → Pump X → Pump X × List (Effect X)
  unfolding convert_update
  run_task clock api r update p =
      let h = convert_update clock api r p.listener update in
      (record p { listener = h.listener; async_rx = sent_result p.async_rx h.outcome }, h.effects)

  unfoldable pub get_node_status : VeilidListener X → Option (NodeStatus X)
  get_node_status l = some l.node_status

  abbrev pub ping_of :
      VeilidListener X → Option (Address X) → Option (Target X) → Option (Target X × Bytes)
  ping_of l none target = none
  ping_of l (some address) none = none
  ping_of l (some address) (some target) = some (
    target,
    encode_message X 0 0 0 address (ping_tag ++ X.encode_protobuf (X.public l.my_keypair))
        l.my_keypair,
  )

  -- The message that the spawned task sends, and where.
  unfoldable pub send_ping : VeilidListener X → Option (Target X × Bytes)
  unfolding encode_message
  send_ping l = ping_of l l.local_address l.local_target

  unfoldable pub send_message_to_me : Api X → Target X → Bytes → List (Effect X)
  send_message_to_me api local_target message_data =
      if api.routing_context then app_message local_target message_data ∷ [] else []

-- ===== src/Tests/Events.antt =====
-- A ping of a listener to itself, and a pump with one update.
use libp2p_transport_veilid.Prelude.{◌≡◌, refl, true, false, some, [], ◌∷◌, ◌++◌}
use libp2p_transport_veilid.Prelude.Map.{lookup}
use libp2p_transport_veilid.External.{Bytes}
use libp2p_transport_veilid.Address.{node_id, unsafe}
use libp2p_transport_veilid.Listener
use libp2p_transport_veilid.Listener.{VeilidListener}
use libp2p_transport_veilid.Listener.Events.{Pump, get_next_event, run_task, sent_result, send_ping}
use libp2p_transport_veilid.Listener.Events.Order.{
  History, Pumped, start, arrive, finish, poll, IsOrdered, Pumped-IsOrdered,
}
use libp2p_transport_veilid.Listener.Events.Ping.{heard, on_app_message-send_ping}
use libp2p_transport_veilid.Listener.Message.{on_app_message, quiet}
use libp2p_transport_veilid.Listener.Updates.{log, convert_update}
use libp2p_transport_veilid.Tests.Demo.{demo, demo-Laws, routes}
use libp2p_transport_veilid.Tests.Listeners.{api, clock, idle}

abbrev routed : VeilidListener demo
routed = record (idle true) { local_target = some (node_id true) }

on_app_message-send_ping_example :
    (packet : Bytes) × (send_ping routed ≡ some (node_id true, packet))
    × (on_app_message clock api routes routed packet ≡ quiet (heard clock routed))
unfolding Listener.new lookup
on_app_message-send_ping_example =
    on_app_message-send_ping demo-Laws clock api routes routed routed (unsafe true) (node_id true)
      refl refl (unsafe true) refl refl

abbrev quiet_pump : Pump demo
quiet_pump = record { listener = idle true; rx = []; rx_ended = false; tasks = []; async_rx = [] }

abbrev polled_once : Pump demo
polled_once = (get_next_event (record quiet_pump { rx = [] ++ log ∷ [] })).0

abbrev answered_once : Pump demo
answered_once = (get_next_event (run_task clock api routes log polled_once).0).0

abbrev history : History demo
history = record {
  arrived = [] ++ log ∷ [];
  results = sent_result [] (convert_update clock api routes polled_once.listener log).outcome;
  answers =
      ([] ++ (get_next_event (record quiet_pump { rx = [] ++ log ∷ [] })).1 ∷ [])
      ++ (get_next_event (run_task clock api routes log polled_once).0).1 ∷ [];
}

history-Pumped : Pumped quiet_pump history answered_once
history-Pumped = poll (finish clock api routes log (poll (arrive log start)))

Pumped-IsOrdered_example : IsOrdered history answered_once
unfolding Listener.new
Pumped-IsOrdered_example = Pumped-IsOrdered refl refl refl refl history-Pumped

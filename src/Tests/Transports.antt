-- ===== src/Tests/Transports.antt =====
-- A transport: its listener, its heartbeat, its polls, and a dial.
use libp2p_transport_veilid.Prelude.{
  List, ◌++◌, ◌≤◌, ◌≡◌, ◌↔◌, refl, true, false, none, some, [], ◌∷◌, arith,
}
use libp2p_transport_veilid.Prelude.Map.{Map, lookup}
use libp2p_transport_veilid.Address.{
  Address, Address-discrete, node_id, unsafe, to_multiaddr, to_target, try_from_multiaddr,
}
use libp2p_transport_veilid.Stream
use libp2p_transport_veilid.Stream.{VeilidStream, listen}
use libp2p_transport_veilid.Stream.Outbound.{send_dial, send_listen}
use libp2p_transport_veilid.Listener
use libp2p_transport_veilid.Listener.{VeilidListener, Clock, safe_type}
use libp2p_transport_veilid.Listener.Message.Answer.{listen_packet}
use libp2p_transport_veilid.Transport
use libp2p_transport_veilid.Transport.{VeilidTransport, heartbeat}
use libp2p_transport_veilid.Transport.Heartbeat.{IsKeyed, HaveRoom, after_beat, heartbeat-streams}
use libp2p_transport_veilid.Transport.Dial.{
  dialing, dial_remote, dial_future, stream_of, status_of, found_in, dialed_status, address_of,
  dial-begins_iff,
}
use libp2p_transport_veilid.Transport.Dial.Connects.{
  Place, Met, handled, began, accepted, dialing_stream, dial_future-Met,
}
use libp2p_transport_veilid.Transport.Listen.{IsWell, Once, Listening, listen_on, listen_on-Once}
use libp2p_transport_veilid.Transport.Runs.{
  Run, listened, listeners_made, listener_count, Run-listeners_made,
}
use libp2p_transport_veilid.Transport.Loop.{poll}
use libp2p_transport_veilid.Transport.Polls.{Answers, poll-streams}
use libp2p_transport_veilid.Tests.Demo.{demo, demo-Laws, routes, stream}
use libp2p_transport_veilid.Tests.Listeners.{api, idle}

abbrev late : VeilidStream demo
late = record (stream true false) { inbound_last_timestamp = 30_000_000_000 }

abbrev streams : Map (Address demo) (VeilidStream demo)
streams = (unsafe false, late) ∷ (unsafe true, stream false true) ∷ []

streams-IsKeyed : IsKeyed streams
unfolding lookup Address-discrete Stream.new
streams-IsKeyed = ((refl, refl), ((refl, refl), tt))

streams-HaveRoom : HaveRoom streams
unfolding Stream.new
streams-HaveRoom = (tt, (tt, tt))

abbrev tick : Clock
tick = record { instant = 40_000_000_000; utc = 40_000_000_000 }

abbrev busy : VeilidListener demo
busy = record (idle true) { streams = streams }

heartbeat-streams_example :
    ((heartbeat tick routes true safe_type busy).failed ≡ false)
    × (lookup
          (Address-discrete demo)
          (unsafe true)
          (heartbeat tick routes true safe_type busy).listener.streams
        ≡ after_beat routes 40_000_000_000 (lookup (Address-discrete demo) (unsafe true) streams))
unfolding Listener.new
heartbeat-streams_example =
    heartbeat-streams tick routes true safe_type busy (unsafe true) streams-IsKeyed streams-HaveRoom

abbrev made : VeilidTransport demo
made = Transport.new demo true true safe_type

-- A transport whose listener has the streams.
abbrev running : VeilidTransport demo
running = record made {
  api = true;
  update_receiver = false;
  listener =
      some (record { listener = busy; rx = []; rx_ended = false; tasks = []; async_rx = [] });
}

poll-streams_example : Answers routes tick running (unsafe true) (poll routes (tick ∷ []) running)
unfolding Listener.new Transport.new
poll-streams_example =
    poll-streams routes tick running (unsafe true) (streams-IsKeyed, streams-HaveRoom)

made-IsWell : IsWell made
unfolding Transport.new
made-IsWell = record { no_listener = λ e. refl; running = λ e. cc }

listen_on-Once_example : Once made 1 2 none (listen_on made 1 none).0
unfolding Transport.new listen_on
listen_on-Once_example = listen_on-Once made 1 2 none none made-IsWell refl

abbrev far : Address demo
far = unsafe false

dial-begins_iff_example :
    (((dial_remote running (to_multiaddr far)).1 ≡ dialing (unsafe true) (unsafe false)) ↔ (
      (try_from_multiaddr demo (to_multiaddr far) ≡ some (unsafe false))
      × (running.api ≡ true)
      × (address_of running ≡ some (unsafe true))
      × ¬ (status_of (stream_of running (unsafe false)) ≡ some listen)))
    × (status_of (
          found_in
            (dial_future tick api routes true (unsafe true) (unsafe false) busy).0
            (unsafe false))
        ≡ dialed_status (status_of (found_in busy (unsafe false))) (to_target api (unsafe false)))
dial-begins_iff_example =
    dial-begins_iff running (to_multiaddr far) (unsafe true) (unsafe false) tick api routes true
      busy

abbrev place : Place demo
place = record { clock = record { instant = 9; utc = 9_000_000_000 }; api = api; routing = routes }

dial_future-Met_example :
    (t : VeilidStream demo) × ((accepted place place true
        (unsafe true)
        far
        (idle true)
        (idle false)
        (node_id false)).effects
      ≡ send_listen routes t)
    × ((dial_future place.clock api routes true (unsafe true) (unsafe false) (idle true)).1
        ≡ send_dial routes (
            dialing_stream place place true
              (unsafe true)
              far
              (idle true)
              (idle false)
              (node_id false)))
    × Met
        (unsafe true)
        (unsafe false)
        true
        false
        9
        9
        (handled place
          (began place place true (unsafe true) far (idle true) (idle false) (node_id false))
          (listen_packet t)).listener
        (accepted place place true
          (unsafe true)
          far
          (idle true)
          (idle false)
          (node_id false)).listener
unfolding Listener.new to_target lookup
dial_future-Met_example =
    dial_future-Met demo-Laws place place place true (unsafe true) (unsafe false) (idle true)
      (idle false) (node_id false) (node_id true) (omega arith) (omega arith) refl refl refl refl
      refl

-- A second call finds a listener.
abbrev twice : List Listening
twice =
    ([] ++ (listen_on made 1 none).1 ∷ []) ++ (listen_on (listen_on made 1 none).0 2 none).1 ∷ []

twice-Run : Run twice (listen_on (listen_on made 1 none).0 2 none).0
twice-Run = listened 2 none (listened 1 none (Run.made true true safe_type))

Run-listeners_made_example :
    (listeners_made twice ≤ 1)
    × (listeners_made twice
        ≡ listener_count (listen_on (listen_on made 1 none).0 2 none).0.listener)
Run-listeners_made_example = Run-listeners_made twice-Run

-- ===== src/Transport/Dial/Connects.antt =====
-- A dial from one node to another, from the future of `dial` to the answer.
use libp2p_transport_veilid.Prelude.{
  if◌then◌else◌, ℕ, ◌<◌, ◌^◌, ◌/◌, ◌≡◌, refl, sym, ap, ◌∙◌, subst, some, none, arith,
}
use libp2p_transport_veilid.Prelude.Map.{lookup, lookup-insert}
use libp2p_transport_veilid.External.{External, Bytes}
use libp2p_transport_veilid.Config.{from_secs}
use libp2p_transport_veilid.Address.{Address, Address-discrete, Api, Target, to_target}
use libp2p_transport_veilid.Address.Laws.{only_key}
use libp2p_transport_veilid.Connection
use libp2p_transport_veilid.Connection.{connect}
use libp2p_transport_veilid.Stream
use libp2p_transport_veilid.Stream.{VeilidStream, Effect, listen, active}
use libp2p_transport_veilid.Stream.Outbound.{Routing, sending_panics, send_dial, send_listen}
use libp2p_transport_veilid.Listener.{VeilidListener, Clock, put_stream}
use libp2p_transport_veilid.Listener.Decode.RoundTrip.{Laws}
use libp2p_transport_veilid.Listener.Message.{Handled, on_app_message}
use libp2p_transport_veilid.Listener.Message.Handshake.{
  Accepted, dial_packet, on_app_message-send_dial,
}
use libp2p_transport_veilid.Listener.Message.Answer.{listen_packet, on_app_message-send_listen}
use libp2p_transport_veilid.Transport.Dial.{panicked, connected, dialed_stream, dial_future}

-- One handling of a message, or one run of the future: when, where and over which network.
pub record Place (X : External) : Type 0 where
  pub clock : Clock
  pub api : Api X
  pub routing : Routing

abbrev pub handled : {X : External} → Place X → VeilidListener X → Bytes → Handled X
handled p l packet = on_app_message p.clock p.api p.routing l packet

module _ {X : External} (l : VeilidListener X) where
  lookup-put_stream :
      (a : Address X) (s : VeilidStream X)
      → lookup (Address-discrete X) a (put_stream l a s).streams ≡ some s
  lookup-put_stream a s = ground (arith, lookup-insert (Address-discrete X) a a s l.streams)

module _ {X : External} (p : Place X) (key : X.Keypair) (here there : Address X)
    (l : VeilidListener X) (target : Target X) where
  abbrev pub dialer : VeilidStream X
  dialer = dialed_stream p.clock l key here there target

  dial_future-connects :
      to_target p.api there ≡ some target
      → dial_future p.clock p.api p.routing key here there l ≡ (
        put_stream l there dialer,
        send_dial p.routing dialer,
        if sending_panics p.routing target
            then panicked
            else connected (Connection.new X here target dialer),
      )
  unfolding dial_future connect Connection.new
  dial_future-connects reachable = rw (dial_future, reachable) refl

-- Two streams that know each other: what the listeners `a` and `b` hold for each other's address.
pub record Met {X : External} (here there : Address X) (key key' : X.Keypair) (id id' : ℕ)
    (a b : VeilidListener X) : Type 0 where
  pub dialing : VeilidStream X
  pub listening : VeilidStream X
  pub dialing_found : lookup (Address-discrete X) there a.streams ≡ some dialing
  pub listening_found : lookup (Address-discrete X) here b.streams ≡ some listening
  pub dialing_active : dialing.status ≡ active
  pub listening_listen : listening.status ≡ listen
  pub dialing_id : dialing.remote_stream_id ≡ id'
  pub listening_id : listening.remote_stream_id ≡ id
  pub dialing_key : dialing.remote_public_key ≡ some (X.public key')
  pub listening_key : listening.remote_public_key ≡ some (X.public key)

-- The node at `here`, with the listener `l`, dials the node at `there`, with the listener `n`. The
-- future runs at `p`, the dial is handled at `q` and the answer at `w`.
module _ {X : External} (p q : Place X) (key : X.Keypair) (here there : Address X)
    (l n : VeilidListener X) (target : Target X) where
  -- The listener that dialed, after the future.
  abbrev pub began : VeilidListener X
  began = (dial_future p.clock p.api p.routing key here (only_key X there) l).0

  abbrev pub dialing_stream : VeilidStream X
  dialing_stream = dialer p key here (only_key X there) l target

  abbrev pub accepted : Handled X
  accepted = handled q n (dial_packet dialing_stream)

module _ {X : External} (laws : Laws X) (p q w : Place X) (key : X.Keypair) (here there : Address X)
    (l n : VeilidListener X) (target back : Target X) where
  -- Where texts, keys, payloads and signatures can be read back and the times in seconds fit 64
  -- bits: when a node dials the address of another one, each gets a target for the other's address,
  -- the dial reaches the other node, which has no stream for the dialing node's address, and the
  -- answer comes back, then the dialing node's stream is active, the other node's stream listens,
  -- each has the other's id and public key, and what the first two steps hand to the network is the
  -- dial and the answer.
  pub dial_future-Met :
      p.clock.utc / from_secs 1 < 2 ^ 64
      → q.clock.utc / from_secs 1 < 2 ^ 64
      → l.local_address ≡ some here
      → n.local_address ≡ some there
      → lookup (Address-discrete X) (only_key X here) n.streams ≡ none
      → to_target p.api (only_key X there) ≡ some target
      → to_target q.api (only_key X here) ≡ some back
      → (t : VeilidStream X) × ((accepted p q key here there l n target).effects
          ≡ send_listen q.routing t)
        × ((dial_future p.clock p.api p.routing key here (only_key X there) l).1
            ≡ send_dial p.routing (dialing_stream p q key here there l n target))
        × Met
            (only_key X here)
            (only_key X there)
            key
            n.my_keypair
            (p.clock.utc / from_secs 1)
            (q.clock.utc / from_secs 1)
            (handled w (began p q key here there l n target) (listen_packet t)).listener
            (accepted p q key here there l n target).listener
  unfolding Stream.new
  dial_future-Met small small' own own' unknown reachable reachable' =
      let s = dialing_stream p q key here there l n target in
      let b = began p q key here there l n target in
      let h = accepted p q key here there l n target in
      let a : Accepted q.routing there s back (q.clock.utc / from_secs 1) n.my_keypair h =
        on_app_message-send_dial laws q.clock q.api q.routing n there s back small own' unknown
          reachable' in
      let t = a.stream in
      let dialed = dial_future-connects p key here (only_key X there) l target reachable in
      let found : lookup (Address-discrete X) (only_key X t.local_address) b.streams ≡ some s =
        ap (λ c. lookup (Address-discrete X) (only_key X c) b.streams) a.local
        ∙ ap (λ d. lookup (Address-discrete X) (only_key X there) d.0.streams) dialed
        ∙ lookup-put_stream l (only_key X there) s in
      let c =
        on_app_message-send_listen laws w.clock w.api w.routing b here s t
          (subst (λ i. i < 2 ^ 64) (sym a.own_id) small') (ap (λ d. d.0.local_address) dialed ∙ own)
          found refl refl in
      (
        t,
        a.answered,
        ap (λ d. d.1) dialed,
        record {
          dialing = c.stream;
          listening = t;
          dialing_found =
              ap
                (λ c.
                  lookup (Address-discrete X) (only_key X c)
                    (handled w b (listen_packet t)).listener.streams)
                (sym a.local)
              ∙ c.found;
          listening_found = a.found;
          dialing_active = c.connected;
          listening_listen = a.listening;
          dialing_id = c.known_id ∙ a.own_id;
          listening_id = a.known_id;
          dialing_key = c.known_key ∙ ap (λ k. some (X.public k)) a.own_keypair;
          listening_key = a.known_key;
        },
      )

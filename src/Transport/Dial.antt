-- ===== src/Transport/Dial.antt =====
-- src/lib.rs: `dial`, and the future that it returns.
pub mod Connects
use libp2p_transport_veilid.Prelude.{
  ℕ, ◌≡◌, ◌↔◌, refl, ◌/◌, Bool, true, false, Option, none, some, inl, inr, ap, Option-cases, List,
  [], ◌∷◌, arith, if◌then◌else◌,
}
use libp2p_transport_veilid.Prelude.Strings.{codes}
use libp2p_transport_veilid.Prelude.Map.{lookup, insert, lookup-insert}
use libp2p_transport_veilid.External.{External}
use libp2p_transport_veilid.Config.{from_secs}
use libp2p_transport_veilid.Errors.{VeilidError, generic, api_not_defined}
use libp2p_transport_veilid.Address.{
  Address, Address-discrete, Target, Api, to_target, try_from_multiaddr,
}
use libp2p_transport_veilid.Connection
use libp2p_transport_veilid.Connection.{VeilidConnection, connect}
use libp2p_transport_veilid.Stream
use libp2p_transport_veilid.Stream.{
  VeilidStream, Effect, StreamStatus, dial, listen, active, expired,
}
use libp2p_transport_veilid.Stream.Outbound.{Routing, sending_panics}
use libp2p_transport_veilid.Listener.{VeilidListener, Clock, put_stream}
use libp2p_transport_veilid.Listener.Events.{Pump}
use libp2p_transport_veilid.Listener.Upkeep.{is_none}
use libp2p_transport_veilid.Transport.{VeilidTransport, Spawned, find_address}

-- `TransportError`.
pub data TransportError (X : External) : Type 0 where
  multiaddr_not_supported : X.Multiaddr → TransportError X
  other : VeilidError → TransportError X

-- `Dial`: a refusal, or a future that holds the two addresses.
pub data Dialing (X : External) : Type 0 where
  refused : TransportError X → Dialing X
  dialing : (local_address remote_address : Address X) → Dialing X

-- The future's result.
pub data Dialed (X : External) : Type 0 where
  failed : VeilidError → Dialed X
  connected : VeilidConnection X → Dialed X
  panicked : Dialed X

abbrev pub is_listening : StreamStatus → Bool
is_listening listen = true
is_listening dial = false
is_listening active = false
is_listening expired = false

module _ {X : External} where
  abbrev pub is_connecting : Option (VeilidStream X) → Bool
  is_connecting none = false
  is_connecting (some s) = is_listening s.status

  -- The part under the listener's lock.
  unfoldable pub dial_listener :
      Address X → VeilidListener X → Option (Address X) → List (Spawned X) × Dialing X
  unfolding lookup
  dial_listener remote_address l none =
      (find_address ∷ [], refused (other (generic (codes "Local address not found"))))
  dial_listener remote_address l (some local_address) = (
    [],
    if is_connecting (lookup (Address-discrete X) remote_address l.streams)
        then refused (other (generic (codes "Already connecting")))
        else dialing local_address remote_address,
  )

  abbrev pub dial_address :
      VeilidTransport X
      → X.Multiaddr
      → Option (Address X)
      → Option (Pump X)
      → List (Spawned X) × Dialing X
  dial_address t addr none p = ([], refused (multiaddr_not_supported addr))
  dial_address t addr (some remote_address) none = (
    [],
    refused (other (if t.api then generic (codes "Listener not found") else api_not_defined)),
  )
  dial_address t addr (some remote_address) (some p) =
      if t.api
      then dial_listener remote_address p.listener p.listener.local_address
      else ([], refused (other api_not_defined))

  -- `VeilidTransport::dial`: the transport itself stays as it is.
  unfoldable pub dial_remote : VeilidTransport X → X.Multiaddr → List (Spawned X) × Dialing X
  unfolding dial_listener try_from_multiaddr
  dial_remote t addr = dial_address t addr (try_from_multiaddr X addr) t.listener

  -- The stream that the future makes. Its remote id is 0 until the answer.
  abbrev pub dialed_stream :
      Clock
      → VeilidListener X
      → X.Keypair
      → (local_address remote_address : Address X) → Target X
      → VeilidStream X
  dialed_stream clock l key local_address remote_address remote_target =
      Stream.new X clock.instant (clock.utc / from_secs 1) l.id local_address remote_address
        remote_target 0 key

  -- The future: the listener, what it hands to the network, and its result.
  unfoldable pub dial_future :
      Clock
      → Api X
      → Routing
      → X.Keypair
      → (local_address remote_address : Address X) → VeilidListener X
      → VeilidListener X × List (Effect X) × Dialed X
  unfolding to_target Stream.new insert Connection.new connect
  dial_future clock api r key local_address remote_address l = elim (to_target api remote_address) [
    | none ↦ (l, [], failed (generic (codes "remote target not found")))
    | some remote_target ↦
        let s = dialed_stream clock l key local_address remote_address remote_target in
        let connection = Connection.new X local_address remote_target s in
        (
          put_stream l remote_address s,
          connect r connection,
          if sending_panics r remote_target then panicked else connected connection,
        )
  ]

  -- The streams of a transport, if it has a listener.
  abbrev pub stream_of : VeilidTransport X → Address X → Option (VeilidStream X)
  stream_of t a = elim t.listener [
    | none ↦ none
    | some p ↦ lookup (Address-discrete X) a p.listener.streams
  ]

  abbrev pub address_of : VeilidTransport X → Option (Address X)
  address_of t = elim t.listener [ none ↦ none | some p ↦ p.listener.local_address ]

  -- The stored status of a stream.
  abbrev pub status_of : Option (VeilidStream X) → Option StreamStatus
  status_of none = none
  status_of (some s) = some s.status

  abbrev pub found_in : VeilidListener X → Address X → Option (VeilidStream X)
  found_in l a = lookup (Address-discrete X) a l.streams

  -- A target that is found makes the stream a dialing one, whatever it was.
  abbrev pub dialed_status : Option StreamStatus → Option (Target X) → Option StreamStatus
  dialed_status was none = was
  dialed_status was (some target) = some dial

  -- A dial's future replaces whatever stream stands under the remote address.
  dial_future-status :
      (clock : Clock) (api : Api X) (r : Routing) (key : X.Keypair)
      (local_address remote_address : Address X) (l : VeilidListener X)
      → status_of
          (found_in (dial_future clock api r key local_address remote_address l).0 remote_address)
        ≡ dialed_status (status_of (found_in l remote_address)) (to_target api remote_address)
  unfolding dial_future Stream.new
  dial_future-status clock api r key local_address remote_address l =
      elim (Option-cases (to_target api remote_address)) [
        | inl unknown ↦ rw (dial_future, unknown) refl
        | inr (target, reachable) ↦
            rw (dial_future, reachable)
              (ground (
                arith,
                lookup-insert (Address-discrete X) remote_address remote_address
                    (dialed_stream clock l key local_address remote_address target) l.streams,
              ))
      ]

  -- A dial begins exactly if the multiaddr is an address, the API is there, the listener is there
  -- and knows its own address, and the stored status of the listener's stream for the address, if
  -- there is one, is not listen. So a stream in the status active or dial does not prevent it. The
  -- future of the dial then leaves, on any listener, a stream in the status dial under the remote
  -- address, whatever stream was there, or the status as it was if it finds no target.
  pub dial-begins_iff :
      (t : VeilidTransport X) (addr : X.Multiaddr) (local_address remote_address : Address X)
      (clock : Clock) (api : Api X) (r : Routing) (key : X.Keypair) (l : VeilidListener X)
      → (((dial_remote t addr).1 ≡ dialing local_address remote_address) ↔ (
          (try_from_multiaddr X addr ≡ some remote_address)
          × (t.api ≡ true)
          × (address_of t ≡ some local_address)
          × ¬ (status_of (stream_of t remote_address) ≡ some listen)))
        × (status_of (
              found_in
                (dial_future clock api r key local_address remote_address l).0
                remote_address)
            ≡ dialed_status (status_of (found_in l remote_address)) (to_target api remote_address))
  unfolding dial_remote dial_listener
  dial-begins_iff t addr local_address remote_address clock api r key l =
      (ground arith, dial_future-status clock api r key local_address remote_address l)

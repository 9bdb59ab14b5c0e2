-- ===== src/Listener.antt =====
-- src/listener.rs: the state that the listener shares with the tasks which handle updates.
pub mod Decode
pub mod Message
pub mod Updates
pub mod Upkeep
pub mod Events
use libp2p_transport_veilid.Prelude.{
  ℕ, Bool, Option, none, some, List, [], ◌∷◌, ◌/◌, ◌+◌, ltb, false, true, if◌then◌else◌,
}
use libp2p_transport_veilid.Prelude.Map.{Map, insert}
use libp2p_transport_veilid.External.{External, Bytes}
use libp2p_transport_veilid.Config.{from_secs}
use libp2p_transport_veilid.Address.{
  Address, Address-discrete, Target, Api, to_target, to_multiaddr, safe, unsafe, DhtStatus,
}
use libp2p_transport_veilid.Address
use libp2p_transport_veilid.NodeStatus.{NodeStatus}
use libp2p_transport_veilid.Connection.{VeilidConnection, Poll, pending, ready}
use libp2p_transport_veilid.Connection
use libp2p_transport_veilid.Stream.{VeilidStream, Effect}
use libp2p_transport_veilid.Stream

pub data TransportType : Type 0 where
  unsafe_type safe_type : TransportType

pub data ListenerStatus : Type 0 where
  offline online : ListenerStatus

-- `no_target` is the source's `TargetStatus::None`.
pub data TargetStatus : Type 0 where
  no_target : TargetStatus
  republishing : ℕ → TargetStatus
  active_target : ℕ → TargetStatus

pub record VeilidListener (X : External) : Type 0 where
  pub transport_type : TransportType
  pub id : ℕ
  pub local_address : Option (Address X)
  pub local_target : Option (Target X)
  pub target_status : TargetStatus
  pub node_status : NodeStatus X
  pub status : ListenerStatus
  pub streams : Map (Address X) (VeilidStream X)
  pub my_keypair : X.Keypair

unfoldable pub new :
    (X : External) → TransportType → (id : ℕ) → NodeStatus X → X.Keypair → VeilidListener X
new X transport_type id node_status my_keypair = record {
  transport_type = transport_type;
  id = id;
  local_address = none;
  local_target = none;
  target_status = no_target;
  node_status = node_status;
  status = offline;
  streams = [];
  my_keypair = my_keypair;
}

-- The clock at a handler's run: the monotonic clock, and the time of day.
pub record Clock : Type 0 where
  pub instant : ℕ
  pub utc : ℕ

-- `TransportEvent`, as far as the listener makes them.
pub data TransportEvent (X : External) : Type 0 where
  incoming :
      (listener_id : ℕ)
      → VeilidConnection X
      → (local_addr send_back_addr : X.Multiaddr) → TransportEvent X
  new_address : (listener_id : ℕ) → X.Multiaddr → TransportEvent X

module _ {X : External} where
  -- The handlers share the stream of the map: a write to it is a write to the map.
  abbrev pub put_stream : VeilidListener X → Address X → VeilidStream X → VeilidListener X
  put_stream l address s = record l { streams = insert (Address-discrete X) address s l.streams }

  unfoldable pub create_stream :
      Clock
      → Api X
      → VeilidListener X
      → (local_address remote_address : Address X) → (remote_stream_id : ℕ)
      → Option (VeilidListener X × VeilidStream X)
  unfolding to_target Stream.new insert
  create_stream clock api l local_address remote_address remote_stream_id =
      elim (to_target api remote_address) [
        | none ↦ none
        | some remote_target ↦
            let s =
              Stream.new X clock.instant (clock.utc / from_secs 1) l.id local_address remote_address
                remote_target remote_stream_id l.my_keypair in
            some (put_stream l remote_address s, s)
      ]

  -- `VeilidStream::activate`: the event of a new incoming connection.
  unfoldable pub activate : VeilidStream X → Poll (Option (TransportEvent X))
  unfolding to_multiaddr Connection.new
  activate s = ready (
      some (
        incoming s.listener_id (Connection.new X s.local_address s.remote_target s)
          (to_multiaddr s.local_address) (to_multiaddr s.remote_address)))

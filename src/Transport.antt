-- ===== src/Transport.antt =====
-- src/lib.rs: `VeilidTransport` and its heartbeat. A task that is spawned is a value, `Spawned`; the
-- function that it runs is in Listener.Upkeep or in Listener.Events.
pub mod Streams
pub mod Heartbeat
pub mod Dial
pub mod Listen
pub mod Loop
pub mod Polls
pub mod Runs
use libp2p_transport_veilid.Prelude.{
  ℕ, Bool, true, false, Option, none, some, List, [], ◌∷◌, ◌++◌, ◌&&◌, not, if◌then◌else◌,
}
use libp2p_transport_veilid.External.{External, Bytes}
use libp2p_transport_veilid.Address.{Address, Target}
use libp2p_transport_veilid.NodeStatus
use libp2p_transport_veilid.NodeStatus.{NodeStatus}
use libp2p_transport_veilid.Stream.{Effect}
use libp2p_transport_veilid.Stream.Outbound.{Routing}
use libp2p_transport_veilid.Listener.{
  VeilidListener, Clock, TransportEvent, TransportType, safe_type, unsafe_type,
}
use libp2p_transport_veilid.Listener.Events.{Pump, send_ping}
use libp2p_transport_veilid.Listener.Upkeep.{
  is_none, check_address_dht_record, should_update_target, update_target, get_local_address,
}
use libp2p_transport_veilid.Transport.Streams.{heartbeat_streams}

-- The callbacks, the receiver of updates and the runtime are there or not; so is the API.
pub record VeilidTransport (X : External) : Type 0 where
  pub transport_type : TransportType
  pub my_keypair : X.Keypair
  pub update_callback : Bool
  pub config_callback : Bool
  pub update_receiver : Bool
  pub api : Bool
  pub runtime : Bool
  pub listener : Option (Pump X)
  pub events : List (TransportEvent X)
  pub node_status : NodeStatus X

-- The heartbeat's interval is the environment's: `poll` is told how often it is due.
unfoldable pub new :
    (X : External) → (handle : Bool) → X.Keypair → TransportType → VeilidTransport X
unfolding NodeStatus.new
new X handle node_keys transport_type = record {
  transport_type = transport_type;
  my_keypair = node_keys;
  update_callback = true;
  config_callback = true;
  update_receiver = true;
  api = false;
  runtime = handle;
  listener = none;
  events = [];
  node_status = NodeStatus.new X;
}

-- The task of `check_address_dht_record` with the listener's target, the one of `send_ping`, the one
-- of `update_target`, and the one that looks for an address.
pub data Spawned (X : External) : Type 0 where
  check_record : X.RecordKey → Option (Target X) → Spawned X
  ping : Target X → Bytes → Spawned X
  renew_target : Address X → Spawned X
  find_address : Spawned X

-- What a heartbeat leaves, with its effects and its tasks, and whether sending panicked.
pub record Beaten (X : External) : Type 0 where
  pub listener : VeilidListener X
  pub effects : List (Effect X)
  pub spawned : List (Spawned X)
  pub failed : Bool

module _ {X : External} where
  abbrev pub beaten : Clock → Routing → VeilidListener X → VeilidListener X × List (Effect X) × Bool
  beaten clock r l =
      let (streams, effects, failed) = heartbeat_streams r clock.instant l.streams in
      (record l { streams = streams }, effects, failed)

  abbrev pub record_check : Option X.RecordKey → Option (Target X) → List (Spawned X)
  record_check none current = []
  record_check (some key) current = check_record key current ∷ []

  abbrev pub pinged : Option (Target X × Bytes) → List (Spawned X)
  pinged none = []
  pinged (some (target, message_data)) = ping target message_data ∷ []

  abbrev pub ping_if_safe : TransportType → VeilidListener X → List (Spawned X)
  ping_if_safe unsafe_type l = []
  ping_if_safe safe_type l =
      if l.node_status.is_attached && not (is_none l.local_target) then pinged (send_ping l) else []

  abbrev pub renewed : Option (Address X) → List (Spawned X)
  renewed none = find_address ∷ []
  renewed (some address) = renew_target address ∷ []

  -- A panic of sending ends it. The lookup of this node's own target, which is only logged, is left out.
  unfoldable pub heartbeat :
      Clock → Routing → (has_api : Bool) → TransportType → VeilidListener X → Beaten X
  unfolding heartbeat_streams check_address_dht_record send_ping should_update_target update_target
  heartbeat clock r has_api transport_type l =
      let (t, effects, failed) = beaten clock r l in
      let checks = record_check (check_address_dht_record clock.utc t) t.local_target in
      let pings = ping_if_safe transport_type t in
      let (u, address) = update_target clock.utc t in
      let due = has_api && should_update_target clock.utc t in
      if failed
      then record { listener = t; effects = effects; spawned = []; failed = true }
      else record {
        listener = if due then u else t;
        effects = effects;
        spawned = (checks ++ pings) ++ (if due then renewed address else []);
        failed = false;
      }

-- ===== src/Listener/Updates.antt =====
-- src/listener.rs: `convert_update` on the node's own news, and as a whole.
pub mod Online
use libp2p_transport_veilid.Prelude.{
  ℕ, Bool, true, false, Option, none, some, List, [], ◌&&◌, not, if◌then◌else◌,
}
use libp2p_transport_veilid.External.{External, Bytes, Text}
use libp2p_transport_veilid.Address.{
  Address, Target, Api, new_unsafe, new_safe, to_target, to_multiaddr,
}
use libp2p_transport_veilid.Connection.{Poll, pending, ready}
use libp2p_transport_veilid.NodeStatus.{
  NodeStatus, update_my_node_id, update_is_attached, update_public_internet_ready,
  get_my_node_id_from_veilid_state_config,
}
use libp2p_transport_veilid.Stream.{Effect}
use libp2p_transport_veilid.Stream.Outbound.{Routing}
use libp2p_transport_veilid.Listener.{
  VeilidListener, TransportType, unsafe_type, safe_type, ListenerStatus, offline, online, Clock,
  TransportEvent, new_address, active_target,
}
use libp2p_transport_veilid.Listener.Message.{Handled, Outcome, polled, quiet, on_app_message}

-- `veilid_core::AttachmentState`.
pub data AttachmentState : Type 0 where
  detached attaching attached_weak attached_good attached_strong : AttachmentState
  fully_attached over_attached detaching : AttachmentState

abbrev pub is_attached : AttachmentState → Bool
is_attached detached = false
is_attached attaching = false
is_attached detaching = false
is_attached _ = true

-- `VeilidUpdate`; what the source ignores of an update is left out.
pub data VeilidUpdate (X : External) : Type 0 where
  log app_call network route_change value_change shutdown : VeilidUpdate X
  app_message : Bytes → VeilidUpdate X
  attachment : AttachmentState → (public_internet_ready : Bool) → VeilidUpdate X
  config : (Text → Option X.NodeId) → VeilidUpdate X

abbrev pub is_offline : ListenerStatus → Bool
is_offline offline = true
is_offline online = false

abbrev pub is_my_node_id : (X : External) → X.NodeId → Option X.NodeId → Bool
is_my_node_id X my_node_id none = false
is_my_node_id X my_node_id (some known) = elim (X.node_id_discrete known my_node_id) [
  | yes _ ↦ true
  | no _ ↦ false
]

module _ {X : External} where
  -- Writing a field only if it differs is writing it.
  unfoldable pub note_attachment : NodeStatus X → Bool → Bool → NodeStatus X
  unfolding update_is_attached update_public_internet_ready
  note_attachment s attached public_ready =
      update_public_internet_ready (update_is_attached s attached) public_ready

  -- The target of a new safe address, if the listener has none.
  abbrev pub with_target : Clock → Api X → Address X → VeilidListener X → VeilidListener X
  with_target clock api address l = elim l.local_target [
    | some target ↦ l
    | none ↦ elim (to_target api address) [
      | none ↦ l
      | some target ↦ record l {
        local_target = some target;
        target_status = active_target clock.utc;
      }
    ]
  ]

  abbrev pub announced : VeilidListener X → Address X → Handled X
  announced l address = record {
    listener = record l { status = online };
    effects = [];
    outcome = polled (ready (some (new_address l.id (to_multiaddr address))));
  }

  unfoldable pub go_online : Clock → Api X → VeilidListener X → TransportType → Handled X
  unfolding new_unsafe new_safe to_target to_multiaddr
  go_online clock api l unsafe_type = elim l.node_status.my_node_id [
    | none ↦ quiet l
    | some my_node_id ↦ announced l (new_unsafe my_node_id)
  ]
  go_online clock api l safe_type = elim (new_safe api clock.utc) [
    | none ↦ quiet l
    | some address ↦
        announced (with_target clock api address (record l { local_address = some address }))
          address
  ]

  unfoldable pub on_attachment :
      Clock → Api X → VeilidListener X → AttachmentState → Bool → Handled X
  unfolding note_attachment go_online
  on_attachment clock api l state public_ready =
      let noted = record l {
        node_status = note_attachment l.node_status (is_attached state) public_ready;
      } in
      if is_offline l.status && public_ready && is_attached state
      then go_online clock api noted l.transport_type
      else quiet noted

  abbrev pub with_own_address : VeilidListener X → X.NodeId → TransportType → VeilidListener X
  with_own_address l my_node_id safe_type = l
  with_own_address l my_node_id unsafe_type = record l {
    local_address = some (new_unsafe my_node_id);
  }

  abbrev pub new_node_id : VeilidListener X → X.NodeId → VeilidListener X
  new_node_id l my_node_id =
      with_own_address (record l { node_status = update_my_node_id l.node_status my_node_id })
        my_node_id l.transport_type

  unfoldable pub on_config : VeilidListener X → (Text → Option X.NodeId) → Handled X
  unfolding get_my_node_id_from_veilid_state_config new_unsafe update_my_node_id
  on_config l group = elim (get_my_node_id_from_veilid_state_config X group) [
    | none ↦ quiet l
    | some my_node_id ↦
        if is_my_node_id X my_node_id l.node_status.my_node_id
        then quiet l
        else quiet (new_node_id l my_node_id)
  ]

  -- The updates that are only logged leave everything as it is.
  unfoldable pub convert_update :
      Clock → Api X → Routing → VeilidListener X → VeilidUpdate X → Handled X
  unfolding on_app_message on_attachment on_config
  convert_update clock api r l (app_message packet) = on_app_message clock api r l packet
  convert_update clock api r l (attachment state public_ready) =
      on_attachment clock api l state public_ready
  convert_update clock api r l (config group) = on_config l group
  convert_update clock api r l _ = quiet l

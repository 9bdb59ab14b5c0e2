-- ===== src/NodeStatus.antt =====
-- src/node_status.rs and src/utils.rs: what is known of this node.
use libp2p_transport_veilid.Prelude.{Bool, false, Option, none, some, [], ◌∷◌}
use libp2p_transport_veilid.External.{External, Text}

pub record NodeStatus (X : External) : Type 0 where
  pub my_node_id : Option X.NodeId
  pub is_attached : Bool
  pub public_internet_ready : Bool

unfoldable pub new : (X : External) → NodeStatus X
new X = record { my_node_id = none; is_attached = false; public_internet_ready = false }

module _ {X : External} where
  unfoldable pub update_my_node_id : NodeStatus X → X.NodeId → NodeStatus X
  update_my_node_id s node_id = record s { my_node_id = some node_id }

  unfoldable pub update_is_attached : NodeStatus X → Bool → NodeStatus X
  update_is_attached s state = record s { is_attached = state }

  unfoldable pub update_public_internet_ready : NodeStatus X → Bool → NodeStatus X
  update_public_internet_ready s ready = record s { public_internet_ready = ready }

-- The configuration's group of node ids is read through `get`, at the kind "VLD0".
unfoldable pub get_my_node_id_from_veilid_state_config :
    (X : External) → (Text → Option X.NodeId) → Option X.NodeId
get_my_node_id_from_veilid_state_config X get = get (b'V' ∷ b'L' ∷ b'D' ∷ b'0' ∷ [])

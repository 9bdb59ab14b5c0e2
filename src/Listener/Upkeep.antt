-- ===== src/Listener/Upkeep.antt =====
-- src/listener.rs: a safe listener's upkeep of its private route. A spawned task is a function of
-- its own, which runs on the listener at a later time; `utc` is the time of day it reads.
pub mod Renewal
use libp2p_transport_veilid.Prelude.{
  ℕ, ◌-◌, Bool, true, false, Option, none, some, ltb, ◌||◌, ◌&&◌, if◌then◌else◌,
}
use libp2p_transport_veilid.External.{External, Bytes}
use libp2p_transport_veilid.Config.{from_secs}
use libp2p_transport_veilid.Address.{
  Address, safe, unsafe, DhtStatus, missing, active, Target, node_id, private_route, Api,
  new_unsafe, new_safe, to_target, update_safe,
}
use libp2p_transport_veilid.Listener.{
  VeilidListener, TransportType, safe_type, unsafe_type, TargetStatus, no_target, republishing,
  active_target,
}

-- `Utc::now().signed_duration_since(then) > Duration::seconds(n)`; a time that is still to come is
-- not that long ago.
abbrev pub is_older : (n now then_utc : ℕ) → Bool
is_older n now then_utc = ltb (from_secs n) (now - then_utc)

abbrev pub is_none {ℓ} : {A : Type ℓ} → Option A → Bool
is_none none = true
is_none (some a) = false

abbrev pub is_target_stale : ℕ → (has_address : Bool) → TargetStatus → Bool
is_target_stale now has_address (republishing t) = is_older 10 now t
is_target_stale now has_address (active_target t) = is_older 30 now t
is_target_stale now has_address no_target = has_address

module _ {X : External} where
  abbrev pub is_safe_address : Option (Address X) → Bool
  is_safe_address none = false
  is_safe_address (some (unsafe key)) = false
  is_safe_address (some (safe key keys status)) = true

  -- The address's own state: never in the DHT, or seen there long ago while the target is active.
  abbrev pub is_address_stale : ℕ → TargetStatus → Option (Address X) → Bool
  is_address_stale now st none = false
  is_address_stale now st (some (unsafe key)) = false
  is_address_stale now st (some (safe key keys missing)) = true
  is_address_stale now no_target (some (safe key keys (active t))) = false
  is_address_stale now (republishing u) (some (safe key keys (active t))) = false
  is_address_stale now (active_target u) (some (safe key keys (active t))) = is_older 30 now t

  unfoldable pub should_update_target : ℕ → VeilidListener X → Bool
  should_update_target now l = elim l.transport_type [
    | unsafe_type ↦ false
    | safe_type ↦
        is_address_stale now l.target_status l.local_address
        || is_target_stale now (is_safe_address l.local_address) l.target_status
        || (is_none l.local_target && is_safe_address l.local_address)
  ]

  -- A new status in the DHT, for a safe address.
  abbrev pub with_status : DhtStatus → Option (Address X) → Option (Address X)
  with_status status none = none
  with_status status (some (unsafe key)) = some (unsafe key)
  with_status status (some (safe key keys old)) = some (safe key keys status)

  -- `update_target` up to the task: the listener, and the address for which the task runs.
  unfoldable pub update_target : ℕ → VeilidListener X → VeilidListener X × Option (Address X)
  update_target utc l = (record l { target_status = republishing utc }, l.local_address)

  -- The task of `update_target`. It reads the clock for the target, and again for the address.
  unfoldable pub update_target_task :
      Api X → (utc utc' : ℕ) → (current_address : Address X) → VeilidListener X → VeilidListener X
  unfolding update_safe
  update_target_task api utc utc' current_address l = elim (update_safe api current_address) [
    | none ↦ record l { local_target = none; target_status = no_target }
    | some new_target ↦ record l {
      local_target = some new_target;
      target_status = active_target utc;
      local_address = with_status (active utc') l.local_address;
    }
  ]

  -- `get_local_address`: the address, and whether it spawns the task `update_local_address`.
  unfoldable pub get_local_address : VeilidListener X → Option (Address X) × Bool
  get_local_address l = (l.local_address, is_none l.local_address)

  -- The target of a new address, which becomes active even if there is none.
  abbrev pub with_own_target : ℕ → Api X → Option (Address X) → VeilidListener X → VeilidListener X
  with_own_target utc api none l = l
  with_own_target utc api (some address) l =
      if is_none l.local_target
      then record l { local_target = to_target api address; target_status = active_target utc }
      else l

  abbrev pub with_new_address : Option (Address X) → VeilidListener X → VeilidListener X
  with_new_address none l = l
  with_new_address (some address) l = record l { local_address = some address }

  abbrev pub own_node_address : Option X.NodeId → Option (Address X)
  own_node_address none = none
  own_node_address (some my_node_id) = some (new_unsafe my_node_id)

  -- An unsafe address is used for the target, but not kept.
  unfoldable pub update_local_address : Api X → (utc : ℕ) → VeilidListener X → VeilidListener X
  unfolding new_safe new_unsafe to_target
  update_local_address api utc l = elim l.transport_type [
    | safe_type ↦
        let address = new_safe api utc in
        with_own_target utc api address (with_new_address address l)
    | unsafe_type ↦ with_own_target utc api (own_node_address l.node_status.my_node_id) l
  ]

  -- Whether `check_address_dht_record` spawns its task, and for which key.
  abbrev pub fetched_key : ℕ → Address X → Option X.RecordKey
  fetched_key now (unsafe key) = none
  fetched_key now (safe key keys missing) = some key
  fetched_key now (safe key keys (active t)) = if is_older 10 now t then some key else none

  unfoldable pub check_address_dht_record : ℕ → VeilidListener X → Option X.RecordKey
  check_address_dht_record now l = elim l.local_address [ none ↦ none | some a ↦ fetched_key now a ]

  abbrev pub is_same_route : X.RouteId → Option (Target X) → Bool
  is_same_route found none = false
  is_same_route found (some (node_id key)) = false
  is_same_route found (some (private_route key)) = elim (X.route_id_discrete key found) [
    | yes _ ↦ true
    | no _ ↦ false
  ]

  abbrev pub compared :
      ℕ → Option (Target X) → Option X.RouteId → VeilidListener X → VeilidListener X
  compared utc current none l = l
  compared utc current (some found) l =
      if is_same_route found current
      then record l { local_address = with_status (active utc) l.local_address }
      else l

  -- The answer of `get_dht_value`; an error drops the status.
  abbrev pub fetched :
      Api X → ℕ → Option (Target X) → Option (Option Bytes) → VeilidListener X → VeilidListener X
  fetched api utc current none l = record l { local_address = with_status missing l.local_address }
  fetched api utc current (some none) l = l
  fetched api utc current (some (some blob)) l =
      compared utc current (api.import_remote_private_route blob) l

  -- The task of `check_address_dht_record`, with the target that the listener had at its start.
  unfoldable pub check_task :
      Api X
      → (utc : ℕ) → X.RecordKey
      → (current : Option (Target X)) → VeilidListener X
      → VeilidListener X
  check_task api utc key current l =
      if api.routing_context
      then (if api.open_dht_record key none
          then fetched api utc current (api.get_dht_value key) l
          else record l { local_address = with_status missing l.local_address })
      else l

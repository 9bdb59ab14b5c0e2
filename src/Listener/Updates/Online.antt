-- ===== src/Listener/Updates/Online.antt =====
-- When a listener goes online.
use libp2p_transport_veilid.Prelude.{
  ◌≡◌, ◌⊎◌, inl, inr, refl, ap, ◌∙◌, Bool, true, false, Option, none, some, [], arith, ◌&&◌,
  Option-cases, Bool-cases,
}
use libp2p_transport_veilid.External.{External}
use libp2p_transport_veilid.Address.{Address, Api, new_safe, new_unsafe, to_multiaddr}
use libp2p_transport_veilid.Connection.{pending, ready}
use libp2p_transport_veilid.Listener.{
  VeilidListener, ListenerStatus, TransportType, unsafe_type, safe_type, Clock, new_address,
  offline, online,
}
use libp2p_transport_veilid.Listener.Message.{Handled, polled}
use libp2p_transport_veilid.Listener.Updates.{
  AttachmentState, detached, attaching, detaching, attached_weak, attached_good, attached_strong,
  fully_attached, over_attached, is_attached, go_online, on_attachment, with_target, is_offline,
  note_attachment,
}

-- The states in which the node is not attached.
abbrev pub IsDown : AttachmentState → Type 0
IsDown state = (state ≡ detached) ⊎ (state ≡ attaching) ⊎ (state ≡ detaching)

is_attached-not_IsDown : (state : AttachmentState) → is_attached state ≡ true → ¬ IsDown state
is_attached-not_IsDown state e (inl down) = cc
is_attached-not_IsDown state e (inr (inl down)) = cc
is_attached-not_IsDown state e (inr (inr down)) = cc

is_attached-IsDown : (state : AttachmentState) → is_attached state ≡ false → IsDown state
is_attached-IsDown detached e = inl refl
is_attached-IsDown attaching e = inr (inl refl)
is_attached-IsDown detaching e = inr (inr refl)
is_attached-IsDown attached_weak e = cc
is_attached-IsDown attached_good e = cc
is_attached-IsDown attached_strong e = cc
is_attached-IsDown fully_attached e = cc
is_attached-IsDown over_attached e = cc

module _ {X : External} where
  -- The local address after going online: a safe listener stores its new address, and the other one
  -- keeps what the node's configuration gave it.
  pub stored : TransportType → Option (Address X) → Address X → Option (Address X)
  stored safe_type was a = some a
  stored unsafe_type was a = was

  -- The listener is online, has stored the address that it announces, and keeps its streams.
  pub record IsAnnounced (l : VeilidListener X) (a : Address X) (h : Handled X) : Type 0 where
    pub goes_online : h.listener.status ≡ online
    pub event : h.outcome ≡ polled (ready (some (new_address l.id (to_multiaddr a))))
    pub address_stored : h.listener.local_address ≡ stored l.transport_type l.local_address a
    pub node_kept : h.listener.node_status.my_node_id ≡ l.node_status.my_node_id
    pub streams_kept : h.listener.streams ≡ l.streams
    pub nothing_sent : h.effects ≡ []

  -- The listener keeps its status, its addresses and its streams, and announces nothing.
  pub record IsSilent (l : VeilidListener X) (h : Handled X) : Type 0 where
    pub status_kept : h.listener.status ≡ l.status
    pub no_event : h.outcome ≡ polled pending
    pub address_kept : h.listener.local_address ≡ l.local_address
    pub target_kept : h.listener.local_target ≡ l.local_target
    pub node_kept : h.listener.node_status.my_node_id ≡ l.node_status.my_node_id
    pub streams_kept : h.listener.streams ≡ l.streams
    pub nothing_sent : h.effects ≡ []

module _ {X : External} (clock : Clock) (api : Api X) where
  -- The address that a listener of a type takes when it goes online, if it can have one: a new
  -- private route's, or that of its node.
  pub own_address : TransportType → Option X.NodeId → Option (Address X)
  own_address safe_type my_node_id = new_safe api clock.utc
  own_address unsafe_type none = none
  own_address unsafe_type (some my_node_id) = some (new_unsafe my_node_id)

  abbrev pub own : VeilidListener X → Option (Address X)
  own l = own_address l.transport_type l.node_status.my_node_id

  -- What finding its own target leaves of a listener.
  with_target-frame :
      (a : Address X) (l : VeilidListener X)
      → let m = with_target clock api a l in
        (m.id ≡ l.id)
        × (m.local_address ≡ l.local_address)
        × (m.node_status.my_node_id ≡ l.node_status.my_node_id)
        × (m.streams ≡ l.streams)
  with_target-frame a l = ground arith

  go_online-cases :
      (l : VeilidListener X) (k : TransportType)
      → k ≡ l.transport_type
      → ((a : Address X) × (own_address k l.node_status.my_node_id ≡ some a)
          × IsAnnounced l a (go_online clock api l k))
        ⊎ ((own_address k l.node_status.my_node_id ≡ none) × IsSilent l (go_online clock api l k))
  unfolding go_online own_address stored
  go_online-cases l unsafe_type same = elim (Option-cases l.node_status.my_node_id) [
    | inl unknown ↦
        simp (go_online, unknown)
          (inr (
            refl,
            record {
              status_kept = refl;
              no_event = refl;
              address_kept = refl;
              target_kept = refl;
              node_kept = refl;
              streams_kept = refl;
              nothing_sent = refl;
            },
          ))
    | inr (id, known) ↦
        simp (go_online, known)
          (inl (
            new_unsafe id,
            refl,
            record {
              goes_online = refl;
              event = refl;
              address_stored = ap (λ k. stored k l.local_address (new_unsafe id)) same;
              node_kept = refl;
              streams_kept = refl;
              nothing_sent = refl;
            },
          ))
  ]
  go_online-cases l safe_type same = elim (Option-cases (new_safe api clock.utc)) [
    | inl failed ↦
        rw (go_online, failed)
          (inr (
            refl,
            record {
              status_kept = refl;
              no_event = refl;
              address_kept = refl;
              target_kept = refl;
              node_kept = refl;
              streams_kept = refl;
              nothing_sent = refl;
            },
          ))
    | inr (a, made) ↦
        let (id, address, node, streams) =
          with_target-frame a (record l { local_address = some a }) in
        rw (go_online, made)
          (inl (
            a,
            refl,
            record {
              goes_online = refl;
              event = ap (λ id. polled (ready (some (new_address id (to_multiaddr a))))) id;
              address_stored = address ∙ ap (λ k. stored k l.local_address a) same;
              node_kept = node;
              streams_kept = streams;
              nothing_sent = refl;
            },
          ))
  ]

  stays_offline :
      (status : ListenerStatus) (public_ready : Bool) (state : AttachmentState)
      → (is_offline status && public_ready && is_attached state) ≡ false
      → (status ≡ online) ⊎ (public_ready ≡ false) ⊎ IsDown state
  stays_offline online public_ready state e = inl refl
  stays_offline offline false state e = inr (inl refl)
  stays_offline offline true state e = inr (inr (is_attached-IsDown state e))

  -- An attachment update of an offline listener whose node is attached, with public internet ready,
  -- makes the listener online and announces its new address, if it can have one: of a new private
  -- route for a safe listener, which stores it, or of its node for another one. In every other case
  -- the listener's status and addresses stay as they are and nothing is announced. In no case does
  -- the update touch the streams or send anything.
  pub on_attachment-cases :
      (l : VeilidListener X) (state : AttachmentState) (public_ready : Bool)
      → let h = on_attachment clock api l state public_ready in
        ((a : Address X) × (own l ≡ some a)
          × (l.status ≡ offline)
          × (public_ready ≡ true)
          × (¬ IsDown state)
          × IsAnnounced l a h)
        ⊎ (((own l ≡ none) ⊎ (l.status ≡ online) ⊎ (public_ready ≡ false) ⊎ IsDown state)
            × IsSilent l h)
  unfolding on_attachment note_attachment
  on_attachment-cases l state public_ready =
      let noted = record l {
        node_status = note_attachment l.node_status (is_attached state) public_ready;
      } in
      elim (Bool-cases (is_offline l.status && public_ready && is_attached state)) [
        | inr stays ↦
            rw (on_attachment, stays)
              (inr (
                inr (stays_offline l.status public_ready state stays),
                record {
                  status_kept = refl;
                  no_event = refl;
                  address_kept = refl;
                  target_kept = refl;
                  node_kept = refl;
                  streams_kept = refl;
                  nothing_sent = refl;
                },
              ))
        | inl goes ↦
            rw (on_attachment, goes)
              (elim (go_online-cases noted l.transport_type refl) [
                | inl (a, own_a, announced) ↦ inl (
                  a,
                  own_a,
                  ground arith,
                  ground arith,
                  is_attached-not_IsDown state (ground arith),
                  record {
                    goes_online = announced.goes_online;
                    event = announced.event;
                    address_stored = announced.address_stored;
                    node_kept = announced.node_kept;
                    streams_kept = announced.streams_kept;
                    nothing_sent = announced.nothing_sent;
                  },
                )
                | inr (unknown, silent) ↦ inr (
                  inl unknown,
                  record {
                    status_kept = silent.status_kept;
                    no_event = silent.no_event;
                    address_kept = silent.address_kept;
                    target_kept = silent.target_kept;
                    node_kept = silent.node_kept;
                    streams_kept = silent.streams_kept;
                    nothing_sent = silent.nothing_sent;
                  },
                )
              ])
      ]

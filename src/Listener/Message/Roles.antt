-- ===== src/Listener/Message/Roles.antt =====
-- Two nodes that dial each other at the same time.
use libp2p_transport_veilid.Prelude.{◌≡◌, ◌≢◌, ◌⊎◌, ap, ◌∙◌, Bool, Option, none, some, subst, arith}
use libp2p_transport_veilid.Prelude.Map.{Map, lookup, insert, lookup-insert}
use libp2p_transport_veilid.External.{External}
use libp2p_transport_veilid.Address.{
  Address, Address-discrete, Api, Ordering, less, equal, greater, cmp, key_string,
}
use libp2p_transport_veilid.Address.Laws.{cmp-flip, cmp-only_key, only_key}
use libp2p_transport_veilid.Stream.{
  VeilidStream, StreamStatus, dial, listen, get_remote_stream_id, update_remote_stream_id,
  update_status, update_inbound_last_timestamp_to_now,
}
use libp2p_transport_veilid.Stream.Outbound.{Routing}
use libp2p_transport_veilid.Listener.{VeilidListener, Clock, put_stream}
use libp2p_transport_veilid.Listener.Decode.{Message, dial_type, verify_signature, message_type}
use libp2p_transport_veilid.Listener.Message.{
  on_message, on_stream, by_status, refresh_id, on_dial, on_both_dialed, learn_key,
}
use libp2p_transport_veilid.Listener.Message.Gates.{on_message_found, learn_key-status}

abbrev pub status_of : (X : External) → Option (VeilidStream X) → Option StreamStatus
status_of X none = none
status_of X (some s) = some s.status

-- The status of the stream that a listener holds for an address.
abbrev pub status_at : {X : External} → VeilidListener X → Address X → Option StreamStatus
status_at {X} l a = status_of X (lookup (Address-discrete X) a l.streams)

lookup-put {ℓ} :
    {K V : Type ℓ} (dec : Discrete K) (k : K) (v : V) (m : Map K V)
    → lookup dec k (insert dec k v m) ≡ some v
lookup-put dec k v m = ground (arith, lookup-insert dec k k v m)

-- The role of a side, by the order of the other side's address and its own.
abbrev pub role : Ordering → StreamStatus
role less = dial
role equal = dial
role greater = listen

-- A listener that dialed an address and has heard nothing from it, and a dial from there. The other
-- side's address is known without owner keys and status, as it travels; a side's own address may
-- have both.
abbrev pub HasDialed :
    {X : External}
    → VeilidListener X
    → (here there : Address X) → VeilidStream X
    → Message X
    → Type 0
HasDialed {X} l here there s m =
    (l.local_address ≡ some here)
    × (lookup (Address-discrete X) (only_key X there) l.streams ≡ some s)
    × (s.status ≡ dial)
    × (s.remote_stream_id ≡ 0)
    × (m.address ≡ only_key X there)
    × (message_type m.msg_data ≡ dial_type)

module _ {X : External} (clock : Clock) (api : Api X) (r : Routing) where
  both_dialed-role :
      (l : VeilidListener X) (m : Message X) (s : VeilidStream X) (o : Ordering)
      → s.status ≡ dial
      → status_at (on_both_dialed clock r l m s o).listener m.address ≡ some (role o)
  unfolding on_both_dialed update_status update_remote_stream_id
      update_inbound_last_timestamp_to_now
  both_dialed-role l m s less e =
      ap (status_of X) (lookup-put (Address-discrete X) m.address _ l.streams)
  both_dialed-role l m s equal e =
      ap (status_of X) (lookup-put (Address-discrete X) m.address _ l.streams) ∙ ap some e
  both_dialed-role l m s greater e =
      ap (status_of X) (lookup-put (Address-discrete X) m.address _ l.streams)

  -- A stream whose remote id is the message's is not stale, and in the status dial it dialed too.
  on_stream-dial :
      (l : VeilidListener X) (here : Address X) (s : VeilidStream X) (m : Message X) (signed : Bool)
      → s.status ≡ dial
      → s.remote_stream_id ≡ m.stream_id
      → on_stream clock api r l here m s signed dial_type
        ≡ on_both_dialed clock r l m (learn_key 4 m.msg_data s) (cmp m.address here)
  unfolding on_stream by_status on_dial get_remote_stream_id
  on_stream-dial l here s m signed dialing same = rw (dialing) (ground arith)

  pub refresh_id-first :
      (m : Message X) (s : VeilidStream X)
      → s.remote_stream_id ≡ 0
      → ((refresh_id m s).status ≡ s.status) × ((refresh_id m s).remote_stream_id ≡ m.stream_id)
  unfolding refresh_id get_remote_stream_id update_remote_stream_id
  refresh_id-first m s unknown = ground arith

  dialed-role :
      (l : VeilidListener X) (here there : Address X) (s : VeilidStream X) (m : Message X)
      → HasDialed l here there s m
      → status_at (on_message clock api r l m).listener (only_key X there)
        ≡ some (role (cmp (only_key X there) here))
  dialed-role l here there s m (own, found, dialing, unknown, from, kind) =
      let t = refresh_id m s in
      let n = put_stream l m.address t in
      let (same, known) = refresh_id-first m s unknown in
      let signed = verify_signature X s.remote_public_key m.msg_data m.signature in
      let handled : on_message clock api r l m
          ≡ on_both_dialed clock r n m (learn_key 4 m.msg_data t) (cmp m.address here) =
        on_message_found clock api r l m here s own (rw from found)
        ∙ ap (on_stream clock api r n here m t signed) kind
        ∙ on_stream-dial n here t m signed (same ∙ dialing) known in
      subst (λ a. status_at (on_message clock api r l m).listener a ≡ some (role (cmp a here))) from
        (ap (λ h. status_at h.listener m.address) handled
          ∙ both_dialed-role n m (learn_key 4 m.msg_data t) (cmp m.address here)
              (learn_key-status 4 m.msg_data t ∙ same ∙ dialing))

module _ {X : External} (clock clock' : Clock) (api api' : Api X) (r r' : Routing)
    (l l' : VeilidListener X) (a b : Address X) (s s' : VeilidStream X) (m m' : Message X) where
  -- When two nodes whose keys have different texts have dialed each other, neither has heard of the
  -- other before, and each handles the other's dial, exactly one of the two streams gets the
  -- status listen and the other one keeps the status dial.
  pub simultaneous_dial :
      HasDialed l a b s m
      → HasDialed l' b a s' m'
      → key_string a ≢ key_string b
      → let first = status_at (on_message clock api r l m).listener (only_key X b) in
        let second = status_at (on_message clock' api' r' l' m').listener (only_key X a) in
        ((first ≡ some listen) × (second ≡ some dial))
        ⊎ ((first ≡ some dial) × (second ≡ some listen))
  simultaneous_dial h h' differ = ground (
    arith,
    dialed-role clock api r l a b s m h,
    dialed-role clock' api' r' l' b a s' m' h',
    cmp-flip a b,
    cmp-only_key a b,
    cmp-only_key b a,
  )

-- ===== src/Listener/Message/Generations.antt =====
-- The id of the remote stream, which grows with each stream that the other side makes.
pub mod Sequence
use libp2p_transport_veilid.Prelude.{
  ℕ, ◌≤◌, ◌≡◌, ◌⊎◌, refl, sym, ap, ◌∙◌, Option, Bool, true, false, none, some, inl, inr, List, [],
  ◌∷◌, All, drop, ltb, ◌==◌, ◌&&◌, not, arith, Bool-cases, Option-cases, if◌then◌else◌, subst,
}
use libp2p_transport_veilid.Prelude.Map.{lookup, lookup-insert}
use libp2p_transport_veilid.External.{External, Bytes}
use libp2p_transport_veilid.Address.{Address, Address-discrete, Api, less, equal, greater, cmp}
use libp2p_transport_veilid.Stream.{
  VeilidStream, Effect, StreamStatus, update_outbound_delivered_seq, dial, listen, active, expired,
  get_remote_stream_id, update_remote_stream_id, update_status, update_remote_public_key,
  update_inbound_last_timestamp_to_now,
}
use libp2p_transport_veilid.Stream.Outbound.{Routing, flush}
use libp2p_transport_veilid.Stream.Inbound.{recv_message, remove_sent_messages_from_queue}
use libp2p_transport_veilid.Stream.Inbound.Cases.{recv_message_cases, accepted_keeps}
use libp2p_transport_veilid.Stream.Statuses.{flush_keeps}
use libp2p_transport_veilid.Listener.{VeilidListener, Clock, put_stream, create_stream}
use libp2p_transport_veilid.Listener.Decode.{
  Message, MessageType, dial_type, listen_type, status_type, ping_type, data_type, verify_signature,
  message_type,
}
use libp2p_transport_veilid.Listener.Message.{
  quiet, wrote, on_message, on_stream, by_status, refresh_id, on_dial, on_listen, on_active,
  on_redial, on_both_dialed, learn_key, with_key,
}
use libp2p_transport_veilid.Listener.Message.Gates.{on_message_found}
use libp2p_transport_veilid.Listener.Message.Transitions.{create_stream-listener}

learn_key-remote_stream_id :
    {X : External} (n : ℕ) (bytes : Bytes) (s : VeilidStream X)
    → (learn_key n bytes s).remote_stream_id ≡ s.remote_stream_id
unfolding learn_key update_remote_public_key
learn_key-remote_stream_id {X} n bytes s =
    elim (X.try_decode_protobuf (drop n bytes))
      as (λ k. (with_key s k).remote_stream_id ≡ s.remote_stream_id) [ none ↦ refl | some k ↦ refl ]

recv_message-remote_stream_id :
    {X : External} (now : ℕ) (s : VeilidStream X) (delivered_seq seq : ℕ) (bytes : Bytes)
    → (recv_message now s delivered_seq seq bytes).0.remote_stream_id ≡ s.remote_stream_id
unfolding remove_sent_messages_from_queue update_outbound_delivered_seq
recv_message-remote_stream_id now s delivered_seq seq bytes =
    recv_message_cases (λ r. r.0.remote_stream_id ≡ s.remote_stream_id) now delivered_seq seq s
      bytes refl refl
      (accepted_keeps (λ t. t.remote_stream_id) (λ t a b c d e. refl) now delivered_seq s bytes)

-- The listener keeps its own address, and its stream of an address has an id that is not less than `before`: it is `before`, or
-- the id of a message.
pub record IsLater {X : External} (own : Option (Address X)) (a : Address X) (before id : ℕ)
    (n : VeilidListener X) : Type 0 where
  pub own_kept : n.local_address ≡ own
  pub stream : VeilidStream X
  pub found : lookup (Address-discrete X) a n.streams ≡ some stream
  pub grows : before ≤ stream.remote_stream_id
  pub known : (stream.remote_stream_id ≡ before) ⊎ (stream.remote_stream_id ≡ id)

module _ {X : External} (a : Address X) (before id : ℕ) (l : VeilidListener X)
    {own : Option (Address X)} (same_own : l.local_address ≡ own) where
  kept :
      (s : VeilidStream X)
      → lookup (Address-discrete X) a l.streams ≡ some s
      → s.remote_stream_id ≡ before
      → IsLater own a before id l
  kept s e same = record {
    own_kept = same_own;
    stream = s;
    found = e;
    grows = omega (arith, same);
    known = inl same;
  }

  same_id :
      (t : VeilidStream X)
      → t.remote_stream_id ≡ before
      → IsLater own a before id (put_stream l a t)
  same_id t same = record {
    own_kept = same_own;
    stream = t;
    found = ground (arith, lookup-insert (Address-discrete X) a a t l.streams);
    grows = omega (arith, same);
    known = inl same;
  }

  new_id :
      (t : VeilidStream X)
      → before ≤ id
      → t.remote_stream_id ≡ id
      → IsLater own a before id (put_stream l a t)
  new_id t le new = record {
    own_kept = same_own;
    stream = t;
    found = ground (arith, lookup-insert (Address-discrete X) a a t l.streams);
    grows = omega (arith, le, new);
    known = inr new;
  }

module _ {X : External} (clock : Clock) (api : Api X) (r : Routing) (here : Address X)
    (m : Message X) (l : VeilidListener X) (is_signed : Bool) (s : VeilidStream X)
    (found : lookup (Address-discrete X) m.address l.streams ≡ some s) where
  abbrev Later : VeilidListener X → Type 0
  Later n = IsLater l.local_address m.address s.remote_stream_id m.stream_id n

  stays : Later l
  stays = kept m.address s.remote_stream_id m.stream_id l refl s found refl

  data-IsLater :
      (t : VeilidStream X) (effects : List (Effect X)) (signed : Bool)
      → t.remote_stream_id ≡ s.remote_stream_id
      → Later (if signed then wrote l m.address t effects else quiet l).listener
  data-IsLater t effects true same = same_id m.address s.remote_stream_id m.stream_id l refl t same
  data-IsLater t effects false same = stays

  module _ (le : s.remote_stream_id ≤ m.stream_id) where
    taken :
        (t : VeilidStream X) → t.remote_stream_id ≡ m.stream_id → Later (put_stream l m.address t)
    taken t new = new_id m.address s.remote_stream_id m.stream_id l refl t le new

    on_redial-IsLater : Later (on_redial clock api r l here m).listener
    unfolding on_redial update_status update_remote_stream_id
    on_redial-IsLater = elim (Option-cases (create_stream clock api l here m.address m.stream_id)) [
      | inl none_made ↦ rw (on_redial, none_made) stays
      | inr ((l', t), made) ↦
          rw (on_redial, made)
            (new_id m.address s.remote_stream_id m.stream_id l'
              (ap (λ n. n.local_address)
                (create_stream-listener clock api r here m l l' m.stream_id t made))
              _ le refl)
    ]

    on_dial-IsLater : (k : MessageType) → Later (on_dial clock r l here m s k).listener
    unfolding on_dial on_both_dialed update_status update_inbound_last_timestamp_to_now
        update_remote_stream_id
    on_dial-IsLater dial_type =
        elim (cmp m.address here)
          as (λ o. Later (on_both_dialed clock r l m (learn_key 4 m.msg_data s) o).listener) [
            | less ↦
                same_id m.address s.remote_stream_id m.stream_id l refl _
                  (learn_key-remote_stream_id 4 m.msg_data s)
            | equal ↦
                same_id m.address s.remote_stream_id m.stream_id l refl _
                  (learn_key-remote_stream_id 4 m.msg_data s)
            | greater ↦ taken _ refl
          ]
    on_dial-IsLater listen_type =
        let t =
          update_status
            (update_remote_stream_id
              (update_inbound_last_timestamp_to_now clock.instant (learn_key 6 m.msg_data s))
              m.stream_id)
            active in
        taken (flush r clock.instant t).0
          (flush_keeps (λ u. u.remote_stream_id) (λ u b q n. refl) r clock.instant t)
    on_dial-IsLater status_type = stays
    on_dial-IsLater ping_type = stays
    on_dial-IsLater data_type = stays

    on_listen-IsLater : (k : MessageType) → Later (on_listen clock r l m s is_signed k).listener
    unfolding on_listen update_remote_stream_id update_status
    on_listen-IsLater dial_type = taken _ refl
    on_listen-IsLater data_type =
        let t =
          recv_message clock.instant (update_status s active) m.received_seq m.msg_seq m.msg_data in
        elim (Bool-cases (get_remote_stream_id s == m.stream_id)) [
          | inr other ↦ rw (on_listen, other) stays
          | inl same ↦
              rw (on_listen, same)
                (data-IsLater t.0 t.1 is_signed (
                  recv_message-remote_stream_id clock.instant (update_status s active)
                    m.received_seq m.msg_seq m.msg_data))
        ]
    on_listen-IsLater listen_type = stays
    on_listen-IsLater status_type = stays
    on_listen-IsLater ping_type = stays

    on_active-IsLater :
        (k : MessageType) → Later (on_active clock api r l here m s is_signed k).listener
    unfolding on_active update_status update_outbound_delivered_seq remove_sent_messages_from_queue
    on_active-IsLater dial_type = elim (Bool-cases (ltb (get_remote_stream_id s) m.stream_id)) [
      | inr old ↦ rw (on_active, old) stays
      | inl newer ↦ rw (on_active, newer) on_redial-IsLater
    ]
    on_active-IsLater status_type = same_id m.address s.remote_stream_id m.stream_id l refl _ refl
    on_active-IsLater data_type =
        let t =
          recv_message clock.instant (update_status s active) m.received_seq m.msg_seq m.msg_data in
        data-IsLater t.0 t.1 is_signed (
          recv_message-remote_stream_id clock.instant (update_status s active) m.received_seq
            m.msg_seq m.msg_data)
    on_active-IsLater listen_type = stays
    on_active-IsLater ping_type = stays

    by_status-IsLater :
        (k : MessageType) (st : StreamStatus)
        → Later (by_status clock api r l here m s is_signed k st).listener
    unfolding by_status
    by_status-IsLater k dial = on_dial-IsLater k
    by_status-IsLater k listen = on_listen-IsLater k
    by_status-IsLater k active = on_active-IsLater k
    by_status-IsLater k expired = stays

  pub on_stream-IsLater :
      (k : MessageType) → Later (on_stream clock api r l here m s is_signed k).listener
  unfolding on_stream get_remote_stream_id
  on_stream-IsLater k =
      elim (Bool-cases
        (not (get_remote_stream_id s == 0) && ltb m.stream_id (get_remote_stream_id s))) [
          | inl stale ↦ rw (on_stream, stale) stays
          | inr current ↦ rw (on_stream, current) (by_status-IsLater (ground arith) k s.status)
        ]

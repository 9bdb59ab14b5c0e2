-- ===== src/Listener/Message/Generations/Sequence.antt =====
-- The id of the remote stream over a sequence of messages from one address.
use libp2p_transport_veilid.Prelude.{
  ◌≤◌, ◌≡◌, ◌⊎◌, refl, sym, ap, ◌∙◌, some, inl, inr, List, [], ◌∷◌, All, ◌==◌, arith, Bool-cases,
}
use libp2p_transport_veilid.Prelude.Map.{lookup, lookup-insert}
use libp2p_transport_veilid.External.{External}
use libp2p_transport_veilid.Address.{Address, Address-discrete, Api}
use libp2p_transport_veilid.Stream.{VeilidStream, get_remote_stream_id, update_remote_stream_id}
use libp2p_transport_veilid.Stream.Outbound.{Routing}
use libp2p_transport_veilid.Listener.{VeilidListener, Clock, put_stream}
use libp2p_transport_veilid.Listener.Decode.{Message, verify_signature, message_type}
use libp2p_transport_veilid.Listener.Message.{on_message, refresh_id}
use libp2p_transport_veilid.Listener.Message.Gates.{on_message_found}
use libp2p_transport_veilid.Listener.Message.Generations.{IsLater, on_stream-IsLater}

module _ {X : External} (api : Api X) (r : Routing) (here : Address X) where
  refresh_id-remote_stream_id :
      (m : Message X) (s : VeilidStream X)
      → (s.remote_stream_id ≤ (refresh_id m s).remote_stream_id)
        × (((refresh_id m s).remote_stream_id ≡ s.remote_stream_id)
            ⊎ ((refresh_id m s).remote_stream_id ≡ m.stream_id))
  unfolding refresh_id get_remote_stream_id update_remote_stream_id
  refresh_id-remote_stream_id m s = elim (Bool-cases (get_remote_stream_id s == 0)) [
    | inl unknown ↦ rw (refresh_id, unknown) (ground arith, inr refl)
    | inr known ↦ rw (refresh_id, known) (omega arith, inl refl)
  ]

  -- What a message leaves of the id of its sender's stream.
  on_message-IsLater :
      (clock : Clock) (m : Message X) (l : VeilidListener X) (s : VeilidStream X)
      → l.local_address ≡ some here
      → lookup (Address-discrete X) m.address l.streams ≡ some s
      → IsLater
          (some here)
          m.address
          s.remote_stream_id
          m.stream_id
          (on_message clock api r l m).listener
  on_message-IsLater clock m l s own found =
      let t = refresh_id m s in
      let n = put_stream l m.address t in
      let signed = verify_signature X s.remote_public_key m.msg_data m.signature in
      let there : lookup (Address-discrete X) m.address n.streams ≡ some t =
        ground (arith, lookup-insert (Address-discrete X) m.address m.address t l.streams) in
      let v = on_stream-IsLater clock api r here m n signed t there (message_type m.msg_data) in
      let (more, either) = refresh_id-remote_stream_id m s in
      rw (on_message_found clock api r l m here s own found) (record {
        own_kept = v.own_kept ∙ own;
        stream = v.stream;
        found = v.found;
        grows = omega (arith, more, v.grows);
        known = elim v.known [
          | inl same ↦ elim either [ inl old ↦ inl (same ∙ old) | inr new ↦ inr (same ∙ new) ]
          | inr new ↦ inr new
        ];
      })

  -- The listener after a sequence of messages, each at its time.
  pub after_messages : VeilidListener X → List (Clock × Message X) → VeilidListener X
  after_messages l [] = l
  after_messages l ((clock, m) ∷ rest) = after_messages (on_message clock api r l m).listener rest

  -- At a listener that knows its own address and has a stream for an address: whatever sequence of
  -- messages comes from that address, of any type and signed or not, the listener still has a
  -- stream for the address, and the remote stream's id that it knows has not become smaller, be
  -- the stream the same or a new one. So no message of an earlier stream of the other side, once a
  -- later one is known, brings that earlier stream back.
  pub after_messages-remote_stream_id :
      (a : Address X) (messages : List (Clock × Message X)) (l : VeilidListener X)
      (s : VeilidStream X)
      → l.local_address ≡ some here
      → lookup (Address-discrete X) a l.streams ≡ some s
      → All (λ e. e.1.address ≡ a) messages
      → (t : VeilidStream X) × (lookup (Address-discrete X) a (after_messages l messages).streams
          ≡ some t)
        × (s.remote_stream_id ≤ t.remote_stream_id)
  unfolding after_messages
  after_messages-remote_stream_id a [] l s own found all = (s, found, omega arith)
  after_messages-remote_stream_id a ((clock, m) ∷ rest) l s own found (from, all) =
      let there = ap (λ b. lookup (Address-discrete X) b l.streams) from ∙ found in
      let v = on_message-IsLater clock m l s own there in
      let (t, last, le) =
        after_messages-remote_stream_id a rest (on_message clock api r l m).listener v.stream
          v.own_kept
          (ap (λ b. lookup (Address-discrete X) b (on_message clock api r l m).listener.streams)
              (sym from)
            ∙ v.found)
          all in
      (t, last, omega (arith, v.grows, le))

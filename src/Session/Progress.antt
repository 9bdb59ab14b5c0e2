-- ===== src/Session/Progress.antt =====
-- That the reader can always get on.
use libp2p_transport_veilid.Prelude.{
  ℕ, zero, suc, ◌+◌, ◌≤◌, ◌<◌, ◌^◌, ◌≡◌, refl, ap, ◌∙◌, true, some, List, [], ◌∷◌, length,
  get_elem?, arith,
}
use libp2p_transport_veilid.External.{External, Bytes}
use libp2p_transport_veilid.Stream.{
  VeilidStream, is_active, update_inbound_last_timestamp_to_now, update_inbound_received_seq,
  update_outbound_delivered_seq,
}
use libp2p_transport_veilid.Stream.Inbound.{
  recv_message, publish, accept, update_inbound_stream, remove_sent_messages_from_queue,
}
use libp2p_transport_veilid.Stream.Inbound.Queue.{packet}
use libp2p_transport_veilid.Stream.Inbound.Delivery.{HeadersWhole, accept-Drained}
use libp2p_transport_veilid.Session.{Session, Reach, IsFresh}
use libp2p_transport_veilid.Session.Invariant.{Reach-Inv, written}

-- There is an element at every index of a list.
element {ℓ} :
    {A : Type ℓ} (xs : List A) (i : ℕ) → i < length xs → (x : A) × (get_elem? xs i ≡ some x)
element [] i h = elim h [ ]
element (x ∷ xs) zero h = (x, refl)
element (x ∷ xs) (suc i) h = element xs i (omega (arith, h))

module _ {X : External} where
  update-inbound_received_seq :
      (s : VeilidStream X)
      → (update_inbound_stream s).0.inbound_received_seq ≡ s.inbound_received_seq
  unfolding update_inbound_stream
  update-inbound_received_seq s = ground arith

  publish-inbound_received_seq :
      (now delivered_seq : ℕ) (r : VeilidStream X × ℕ)
      → (publish now r delivered_seq).0.inbound_received_seq ≡ r.1
  unfolding publish update_inbound_last_timestamp_to_now update_inbound_received_seq
      update_outbound_delivered_seq remove_sent_messages_from_queue
  publish-inbound_received_seq now delivered_seq r = update-inbound_received_seq _

  -- The next message is accepted by an active stream.
  recv_message-next :
      (now delivered_seq : ℕ) (s : VeilidStream X) (bytes : Bytes)
      → is_active now s ≡ true
      → s.inbound_received_seq + 1 < 2 ^ 32
      → recv_message now s delivered_seq (suc s.inbound_received_seq) bytes
        ≡ publish now (accept s bytes) delivered_seq
  unfolding recv_message
  recv_message-next now delivered_seq s bytes alive small = ground arith

module _ {X : External} {σ τ : Session X} where
  -- In a session of two new streams in which no message ends inside a slice's header, while the
  -- receiver is active and its cursor is before the last message: there is a message whose arrival
  -- moves the cursor forward, and not past the last message.
  pub deliver-advances :
      (now delivered_seq : ℕ)
      → IsFresh σ
      → Reach σ τ
      → HeadersWhole τ.log
      → is_active now τ.receiver ≡ true
      → τ.receiver.inbound_received_seq < length τ.log
      → (seq : ℕ) × (bytes : Bytes) × (packet τ.log seq ≡ some bytes)
        × (τ.receiver.inbound_received_seq
            < (recv_message now τ.receiver delivered_seq seq bytes).0.inbound_received_seq)
        × ((recv_message now τ.receiver delivered_seq seq bytes).0.inbound_received_seq
            ≤ length τ.log)
  deliver-advances now delivered_seq fresh reach headers alive before =
      let v = Reach-Inv fresh reach headers in
      let s = τ.receiver in
      let n = s.inbound_received_seq in
      let (bytes, p) = element τ.log n before in
      let d =
        accept-Drained τ.log τ.writes τ.output (written τ v) s (suc n) bytes v.receives p
          (refl, ground (arith, v.small)) in
      let cursor : (recv_message now s delivered_seq (suc n) bytes).0.inbound_received_seq
          ≡ (accept s bytes).1 =
        ap (λ r. r.0.inbound_received_seq)
          (recv_message-next now delivered_seq s bytes alive (omega (arith, v.small)))
        ∙ publish-inbound_received_seq now delivered_seq (accept s bytes) in
      (suc n, bytes, p, omega (arith, cursor, d.grows), omega (arith, cursor, d.within))

-- ===== src/Connection/Wakeup.antt =====
-- When a task that waits to read is woken.
use libp2p_transport_veilid.Prelude.{
  ℕ, zero, suc, ◌+◌, ◌≡◌, refl, ◌∙◌, ◌⊎◌, inl, inr, true, some, [], ◌∷◌, u32, is_empty, length,
  arith, Option-cases, ℕ_discrete,
}
use libp2p_transport_veilid.Prelude.Map.{lookup}
use libp2p_transport_veilid.External.{External, Bytes}
use libp2p_transport_veilid.Stream.{VeilidStream, wake}
use libp2p_transport_veilid.Stream.Inbound.{
  recv_message, update_inbound_stream, drain_queue, recv_inbound_buffer, accept, publish,
}
use libp2p_transport_veilid.Stream.Inbound.Cases.{recv_message_cases}
use libp2p_transport_veilid.Connection.{pending, poll_read}

empty_of_is_empty : (bytes : Bytes) → is_empty bytes ≡ true → bytes ≡ []
empty_of_is_empty [] h = refl
empty_of_is_empty (b ∷ bytes) h = cc

module _ {X : External} where
  -- The readable data changes only with a wake-up.
  update_wakes :
      (s : VeilidStream X) (task : ℕ)
      → s.waker ≡ some task
      → ((update_inbound_stream s).0.inbound_stream ≡ s.inbound_stream)
        ⊎ ((update_inbound_stream s).1 ≡ wake task ∷ [])
  unfolding update_inbound_stream
  update_wakes s task w = ground arith

  -- Draining the queue moves neither the waker nor the readable data.
  drain_keeps :
      (fuel : ℕ) (s : VeilidStream X) (n : ℕ)
      → ((drain_queue fuel s n).0.waker ≡ s.waker)
        × ((drain_queue fuel s n).0.inbound_stream ≡ s.inbound_stream)
  unfolding drain_queue
  drain_keeps zero s n = (refl, refl)
  drain_keeps (suc fuel) s n =
      elim (Option-cases (lookup ℕ_discrete (u32 (n + 1)) s.inbound_message_queue)) [
        | inl e ↦ rw (e, drain_queue) (refl, refl)
        | inr (bytes, e) ↦ rw (e, drain_queue) (drain_keeps fuel _ (u32 (n + 1)))
      ]

  publish_wakes :
      (now delivered_seq task : ℕ) (r : VeilidStream X × ℕ)
      → r.0.waker ≡ some task
      → ((publish now r delivered_seq).0.inbound_stream ≡ r.0.inbound_stream)
        ⊎ ((publish now r delivered_seq).1 ≡ wake task ∷ [])
  unfolding publish
  publish_wakes now delivered_seq task r w = update_wakes _ task w

  accept_wakes :
      (now delivered_seq task : ℕ) (s : VeilidStream X) (bytes : Bytes)
      → s.waker ≡ some task
      → ((publish now (accept s bytes) delivered_seq).0.inbound_stream ≡ s.inbound_stream)
        ⊎ ((publish now (accept s bytes) delivered_seq).1 ≡ wake task ∷ [])
  unfolding accept
  accept_wakes now delivered_seq task s bytes w =
      let (same, stream) =
        drain_keeps (length s.inbound_message_queue) (recv_inbound_buffer s bytes)
          (u32 (s.inbound_received_seq + 1)) in
      elim (publish_wakes now delivered_seq task (accept s bytes) (same ∙ w)) [
        | inl e ↦ inl (e ∙ stream)
        | inr e ↦ inr e
      ]

  recv_message_wakes :
      (now delivered_seq seq task : ℕ) (s : VeilidStream X) (bytes : Bytes)
      → s.waker ≡ some task
      → ((recv_message now s delivered_seq seq bytes).0.inbound_stream ≡ s.inbound_stream)
        ⊎ ((recv_message now s delivered_seq seq bytes).1 ≡ wake task ∷ [])
  recv_message_wakes now delivered_seq seq task s bytes w =
      recv_message_cases (λ r. (r.0.inbound_stream ≡ s.inbound_stream) ⊎ (r.1 ≡ wake task ∷ [])) now
        delivered_seq seq s bytes (inl refl) (inl refl)
        (accept_wakes now delivered_seq task s bytes w)

  -- A pending poll has nothing to read and leaves its task to be woken.
  poll_read_pending :
      (now task : ℕ) (s : VeilidStream X) (buf : Bytes)
      → (poll_read now task s buf).2 ≡ pending
      → ((poll_read now task s buf).0.inbound_stream ≡ [])
        × ((poll_read now task s buf).0.waker ≡ some task)
  unfolding poll_read
  poll_read_pending now task s buf h = ground (arith, empty_of_is_empty s.inbound_stream)

  -- A task whose poll was pending had nothing to read, and whatever message comes right after the
  -- poll either leaves nothing to read or wakes that task.
  pub poll_read-wakes :
      (now task later delivered_seq seq : ℕ) (s : VeilidStream X) (buf bytes : Bytes)
      → (poll_read now task s buf).2 ≡ pending
      → let t = (poll_read now task s buf).0 in
        let u = recv_message later t delivered_seq seq bytes in
        (t.inbound_stream ≡ []) × ((u.0.inbound_stream ≡ []) ⊎ (u.1 ≡ wake task ∷ []))
  poll_read-wakes now task later delivered_seq seq s buf bytes h =
      let (none_left, waits) = poll_read_pending now task s buf h in
      (
        none_left,
        elim (recv_message_wakes later delivered_seq seq task _ bytes waits) [
          | inl same ↦ inl (same ∙ none_left)
          | inr woken ↦ inr woken
        ],
      )

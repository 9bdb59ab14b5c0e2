-- ===== src/Stream/Inbound/Cases.antt =====
-- The branches of `recv_message`, and what no branch has a part in.
use libp2p_transport_veilid.Prelude.{
  ℕ, zero, suc, ◌+◌, ◌≡◌, refl, ◌∙◌, inl, inr, List, [], leb, ltb, u32, length, is_empty,
  Bool-cases, Option-cases, ℕ_discrete,
}
use libp2p_transport_veilid.Prelude.Map.{Map, lookup, insert}
use libp2p_transport_veilid.External.{External, Bytes}
use libp2p_transport_veilid.Stream.{
  VeilidStream, Effect, is_active, update_outbound_delivered_seq, update_inbound_received_seq,
  update_inbound_last_timestamp_to_now,
}
use libp2p_transport_veilid.Stream.Inbound.{
  recv_message, accept, publish, drain_queue, recv_inbound_buffer, update_inbound_stream,
  collect_slices, remove_sent_messages_from_queue,
}

module _ {X : External} where
  -- A message is dropped, kept for later, or accepted.
  pub recv_message_cases {ℓ} :
      (P : VeilidStream X × List (Effect X) → Type ℓ) (now delivered_seq seq : ℕ)
      (s : VeilidStream X) (bytes : Bytes)
      → P (s, [])
      → P (
        record s { inbound_message_queue = insert ℕ_discrete seq bytes s.inbound_message_queue },
        [],
      )
      → P (publish now (accept s bytes) delivered_seq)
      → P (recv_message now s delivered_seq seq bytes)
  unfolding recv_message
  recv_message_cases P now delivered_seq seq s bytes dropped stored accepted =
      let received = s.inbound_received_seq in
      elim (Bool-cases (leb seq received)) [
        | inl dup ↦ rw dup dropped
        | inr fresh ↦ rw fresh (elim (Bool-cases (ltb (u32 (received + 1)) seq)) [
          | inl ahead ↦ rw ahead (elim (Bool-cases (ltb seq (u32 (received + 20)))) [
            | inl near ↦ rw near stored
            | inr far ↦ rw far dropped
          ])
          | inr next ↦ rw next (elim (Bool-cases (is_active now s)) [
            | inl alive ↦ rw alive accepted
            | inr dead ↦ rw dead dropped
          ])
        ])
      ]

  -- What the inbound half has no part in.
  abbrev pub IgnoresInbound {ℓ} : {A : Type ℓ} → (VeilidStream X → A) → Type ℓ
  IgnoresInbound f =
      (s : VeilidStream X) (stream buffer : Bytes) (received : ℕ) (queue : Map ℕ Bytes) (heard : ℕ)
      → f (record s {
        inbound_stream = stream;
        inbound_buffer = buffer;
        inbound_received_seq = received;
        inbound_message_queue = queue;
        inbound_last_timestamp = heard;
      })
        ≡ f s

  drain_queue_keeps {ℓ} :
      {A : Type ℓ} (f : VeilidStream X → A)
      → IgnoresInbound f
      → (fuel : ℕ) (s : VeilidStream X) (n : ℕ) → f (drain_queue fuel s n).0 ≡ f s
  unfolding drain_queue recv_inbound_buffer
  drain_queue_keeps f same zero s n = refl
  drain_queue_keeps f same (suc fuel) s n =
      elim (Option-cases (lookup ℕ_discrete (u32 (n + 1)) s.inbound_message_queue)) [
        | inl e ↦ rw (drain_queue, e) refl
        | inr (bytes, e) ↦
            rw (drain_queue, e)
              (drain_queue_keeps f same fuel _ (u32 (n + 1))
                ∙ same s s.inbound_stream _ s.inbound_received_seq _ s.inbound_last_timestamp)
      ]

  update_inbound_stream_keeps {ℓ} :
      {A : Type ℓ} (f : VeilidStream X → A)
      → IgnoresInbound f
      → (now : ℕ) (s : VeilidStream X)
      → f (update_inbound_last_timestamp_to_now now (update_inbound_stream s).0) ≡ f s
  unfolding update_inbound_stream update_inbound_last_timestamp_to_now
  update_inbound_stream_keeps f same now s =
      let c = collect_slices (length s.inbound_buffer) s.inbound_buffer [] in
      elim (Bool-cases c.returned) [
        | inl early ↦ rw early (same s _ _ _ _ now)
        | inr whole ↦ rw whole (elim (Bool-cases (is_empty c.complete_slices)) [
          | inl nothing ↦ rw nothing (same s _ _ _ _ now)
          | inr some_data ↦ rw some_data (same s _ _ _ _ now)
        ])
      ]

  -- An accepted message changes the outbound half by its acknowledgement alone.
  pub accepted_keeps {ℓ} :
      {A : Type ℓ} (f : VeilidStream X → A)
      → IgnoresInbound f
      → (now delivered_seq : ℕ) (s : VeilidStream X) (bytes : Bytes)
      → f (publish now (accept s bytes) delivered_seq).0
        ≡ f (remove_sent_messages_from_queue (update_outbound_delivered_seq s delivered_seq))
  unfolding publish accept update_outbound_delivered_seq remove_sent_messages_from_queue
      update_inbound_received_seq recv_inbound_buffer
  accepted_keeps f same now delivered_seq s bytes =
      let acknowledge = λ (t : VeilidStream X).
        remove_sent_messages_from_queue (update_outbound_delivered_seq t delivered_seq) in
      let r = accept s bytes in
      let u = r.0 in
      let b = recv_inbound_buffer s bytes in
      update_inbound_stream_keeps f same now (acknowledge (update_inbound_received_seq u r.1))
      ∙ same (acknowledge u) u.inbound_stream u.inbound_buffer r.1 u.inbound_message_queue
          u.inbound_last_timestamp
      ∙ drain_queue_keeps (λ t. f (acknowledge t))
          (λ t stream buffer received queue heard.
            same (acknowledge t) stream buffer received queue heard)
          (length s.inbound_message_queue) b (u32 (s.inbound_received_seq + 1))
      ∙ same (acknowledge s) s.inbound_stream b.inbound_buffer s.inbound_received_seq
          s.inbound_message_queue s.inbound_last_timestamp

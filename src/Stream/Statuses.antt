-- ===== src/Stream/Statuses.antt =====
-- What the operations on data leave of a stream's status.
use libp2p_transport_veilid.Prelude.{
  ℕ, zero, suc, ◌≡◌, refl, ◌∙◌, inl, inr, ltb, length, min, take, drop, Bool-cases, if◌then◌else◌,
}
use libp2p_transport_veilid.Prelude.Map.{Map, insert}
use libp2p_transport_veilid.External.{External, Bytes}
use libp2p_transport_veilid.Stream.{
  VeilidStream, OutboundMessage, increment_outbound_last_seq, update_outbound_delivered_seq,
}
use libp2p_transport_veilid.Stream.Inbound.{recv_message, remove_sent_messages_from_queue}
use libp2p_transport_veilid.Stream.Inbound.Cases.{recv_message_cases, accepted_keeps}
use libp2p_transport_veilid.Stream.Outbound.{
  Routing, generate_loop, generate_messages, push_message, send_messages, flush,
}

module _ {X : External} where
  pub recv_message-status :
      (now : ℕ) (s : VeilidStream X) (delivered_seq seq : ℕ) (bytes : Bytes)
      → (recv_message now s delivered_seq seq bytes).0.status ≡ s.status
  unfolding remove_sent_messages_from_queue update_outbound_delivered_seq
  recv_message-status now s delivered_seq seq bytes =
      recv_message_cases (λ r. r.0.status ≡ s.status) now delivered_seq seq s bytes refl refl
        (accepted_keeps (λ t. t.status) (λ t a b c d e. refl) now delivered_seq s bytes)

  -- What neither the outbound stream nor its messages have a part in.
  abbrev pub IgnoresOutbound {ℓ} : {A : Type ℓ} → (VeilidStream X → A) → Type ℓ
  IgnoresOutbound f =
      (s : VeilidStream X) (bytes : Bytes) (queue : Map ℕ OutboundMessage) (seq : ℕ)
      → f (record s {
        outbound_stream = bytes;
        outbound_message_queue = queue;
        outbound_last_seq = seq;
      })
        ≡ f s

  generate_loop_keeps {ℓ} :
      {A : Type ℓ} (f : VeilidStream X → A)
      → IgnoresOutbound f
      → (limit fuel : ℕ) (s : VeilidStream X) → f (generate_loop limit fuel s) ≡ f s
  unfolding generate_loop push_message insert increment_outbound_last_seq
  generate_loop_keeps f same limit zero s = refl
  generate_loop_keeps f same limit (suc fuel) s =
      let n = min limit (length s.outbound_stream) in
      let t = record s { outbound_stream = drop n s.outbound_stream } in
      let u =
        if ltb 0 (length (take n s.outbound_stream))
        then push_message t (take n s.outbound_stream)
        else t in
      let pushed : f u ≡ f s = elim (Bool-cases (ltb 0 (length (take n s.outbound_stream)))) [
        | inl some_data ↦ rw some_data (same s _ _ _)
        | inr no_data ↦
            rw no_data
              (same s (drop n s.outbound_stream) s.outbound_message_queue s.outbound_last_seq)
      ] in
      elim (Bool-cases (ltb 0 (length s.outbound_stream))) [
        | inl more ↦ rw (generate_loop, more) (generate_loop_keeps f same limit fuel u ∙ pushed)
        | inr done ↦ rw (generate_loop, done) refl
      ]

  pub generate_messages_keeps {ℓ} :
      {A : Type ℓ} (f : VeilidStream X → A)
      → IgnoresOutbound f
      → (s : VeilidStream X) → f (generate_messages s) ≡ f s
  unfolding generate_messages
  generate_messages_keeps f same s = generate_loop_keeps f same _ (length s.outbound_stream) s

  -- A flush keeps them.
  pub flush_keeps {ℓ} :
      {A : Type ℓ} (f : VeilidStream X → A)
      → IgnoresOutbound f
      → (r : Routing) (now : ℕ) (s : VeilidStream X) → f (flush r now s).0 ≡ f s
  unfolding flush send_messages
  flush_keeps f same r now s =
      let t = generate_messages s in
      same t t.outbound_stream (send_messages r now t).0.outbound_message_queue t.outbound_last_seq
      ∙ generate_messages_keeps f same s

  pub flush-status :
      (r : Routing) (now : ℕ) (s : VeilidStream X) → (flush r now s).0.status ≡ s.status
  flush-status r now s = flush_keeps (λ t. t.status) (λ t b q n. refl) r now s

-- ===== src/Session/Sizes.antt =====
-- The size of the messages that wait: the limit at which `send_messages` would panic.
use libp2p_transport_veilid.Prelude.{
  ℕ, zero, suc, ◌≤◌, ◌≡◌, refl, sym, subst, some, Bool, true, false, inl, inr, List, [], ◌∷◌, ltb,
  length, min, take, drop, length-take, arith, Bool-cases, is_empty, ℕ_discrete, if◌then◌else◌, ite,
}
use libp2p_transport_veilid.Prelude.Map.{Map, insert, remove, modify, retain}
use libp2p_transport_veilid.External.{External, Bytes}
use libp2p_transport_veilid.Stream
use libp2p_transport_veilid.Stream.{VeilidStream, OutboundMessage, update_outbound_delivered_seq}
use libp2p_transport_veilid.Connection.{register}
use libp2p_transport_veilid.Stream.Inbound.{remove_sent_messages_from_queue, read_inbound_stream}
use libp2p_transport_veilid.Stream.Inbound.Cases.{recv_message_cases, accepted_keeps}
use libp2p_transport_veilid.Stream.Outbound.{
  Routing, insert_to_outbound_stream, push_message, generate_loop, generate_messages, mark_sent,
  due_messages, send_messages, flush,
}
use libp2p_transport_veilid.Stream.Outbound.Retry.{InLimit, due-All, send_each_fits}
use libp2p_transport_veilid.Session.{
  Session, Setter, status, Step, write, generate, send, acknowledge, deliver, read, set_sender,
  hear, consume, talk, set_receiver, Reach, here, next, IsFresh,
}

remove-InLimit :
    (k : ℕ) (queue : Map ℕ OutboundMessage) → InLimit queue → InLimit (remove ℕ_discrete k queue)
unfolding remove
remove-InLimit k [] h = tt
remove-InLimit k ((j, m) ∷ queue) h =
    elim (ℕ_discrete j k)
      as (λ d. InLimit (ite d (remove ℕ_discrete k queue) ((j, m) ∷ remove ℕ_discrete k queue))) [
        | yes e ↦ remove-InLimit k queue h.1
        | no ne ↦ (h.0, remove-InLimit k queue h.1)
      ]

touch-InLimit :
    (k now : ℕ) (queue : Map ℕ OutboundMessage)
    → InLimit queue
    → InLimit (modify ℕ_discrete k (λ e. record e { last_try_send = some now }) queue)
unfolding modify
touch-InLimit k now [] h = tt
touch-InLimit k now ((j, m) ∷ queue) h =
    elim (ℕ_discrete j k)
      as (λ d. InLimit (
        ite d
          ((j, record m { last_try_send = some now })
            ∷ modify ℕ_discrete k (λ e. record e { last_try_send = some now }) queue)
          ((j, m) ∷ modify ℕ_discrete k (λ e. record e { last_try_send = some now }) queue))) [
            | yes e ↦ (h.0, touch-InLimit k now queue h.1)
            | no ne ↦ (h.0, touch-InLimit k now queue h.1)
          ]

mark_sent-InLimit :
    (now : ℕ) (messages : List OutboundMessage) (queue : Map ℕ OutboundMessage)
    → InLimit queue
    → InLimit (mark_sent now messages queue)
unfolding mark_sent
mark_sent-InLimit now [] queue h = h
mark_sent-InLimit now (m ∷ messages) queue h =
    mark_sent-InLimit now messages _ (touch-InLimit m.seq now queue h)

retain-InLimit :
    (keep : ℕ → Bool) (queue : Map ℕ OutboundMessage) → InLimit queue → InLimit (retain keep queue)
unfolding retain
retain-InLimit keep [] h = tt
retain-InLimit keep ((j, m) ∷ queue) h =
    elim (keep j) as (λ b. InLimit (if b then (j, m) ∷ retain keep queue else retain keep queue)) [
      | true ↦ (h.0, retain-InLimit keep queue h.1)
      | false ↦ retain-InLimit keep queue h.1
    ]

module _ {X : External} where
  push_message-InLimit :
      (s : VeilidStream X) (msg : Bytes)
      → length msg ≤ 32768
      → InLimit s.outbound_message_queue
      → InLimit (push_message s msg).outbound_message_queue
  unfolding push_message insert Stream.increment_outbound_last_seq
  push_message-InLimit s msg size h = (size, remove-InLimit _ s.outbound_message_queue h)

  generate_loop-InLimit :
      (limit fuel : ℕ) (s : VeilidStream X)
      → limit ≤ 32768
      → InLimit s.outbound_message_queue
      → InLimit (generate_loop limit fuel s).outbound_message_queue
  unfolding generate_loop
  generate_loop-InLimit limit zero s le h = h
  generate_loop-InLimit limit (suc fuel) s le h =
      let n = min limit (length s.outbound_stream) in
      let msg = take n s.outbound_stream in
      let t = record s { outbound_stream = drop n s.outbound_stream } in
      let pushed : InLimit
          (if ltb 0 (length msg) then push_message t msg else t).outbound_message_queue =
        elim (Bool-cases (ltb 0 (length msg))) [
          | inl some_data ↦
              rw some_data
                (push_message-InLimit t msg (omega (arith, length-take n s.outbound_stream, le)) h)
          | inr no_data ↦ rw no_data h
        ] in
      elim (Bool-cases (ltb 0 (length s.outbound_stream))) [
        | inl more ↦ rw (generate_loop, more) (generate_loop-InLimit limit fuel _ le pushed)
        | inr done ↦ rw (generate_loop, done) h
      ]

  pub generate_messages-InLimit :
      (s : VeilidStream X)
      → InLimit s.outbound_message_queue
      → InLimit (generate_messages s).outbound_message_queue
  unfolding generate_messages
  generate_messages-InLimit s h = generate_loop-InLimit _ _ s (omega arith) h

  Setter-InLimit :
      {s t : VeilidStream X}
      → Setter s t
      → InLimit s.outbound_message_queue
      → InLimit t.outbound_message_queue
  unfolding Stream.update_status Stream.update_remote_stream_id Stream.update_remote_public_key
      Stream.update_inbound_last_timestamp_to_now Stream.update_outbound_last_timestamp_to_now
      register
  Setter-InLimit (status st) h = h
  Setter-InLimit _ h = h

  Step-InLimit :
      {σ τ : Session X}
      → Step σ τ
      → InLimit σ.sender.outbound_message_queue
      → InLimit τ.sender.outbound_message_queue
  unfolding insert_to_outbound_stream send_messages remove_sent_messages_from_queue
      update_outbound_delivered_seq read_inbound_stream
  Step-InLimit {σ} (generate room) h = generate_messages-InLimit σ.sender h
  Step-InLimit {σ} (send r now) h =
      mark_sent-InLimit now (due_messages now σ.sender.outbound_message_queue)
        σ.sender.outbound_message_queue h
  Step-InLimit {σ} (acknowledge delivered_seq) h =
      retain-InLimit _ σ.sender.outbound_message_queue h
  Step-InLimit {σ} (hear now delivered_seq seq bytes) h =
      recv_message_cases (λ r. InLimit r.0.outbound_message_queue) now delivered_seq seq σ.sender
        bytes h h
        (subst InLimit
          (sym (
            accepted_keeps (λ t. t.outbound_message_queue) (λ t a b c d e. refl) now delivered_seq
              σ.sender bytes))
          (retain-InLimit _ σ.sender.outbound_message_queue h))
  Step-InLimit {σ} (consume buf) h = elim (Bool-cases (is_empty σ.sender.inbound_stream)) [
    | inl none_left ↦ rw none_left h
    | inr some_left ↦ rw some_left h
  ]
  Step-InLimit (talk said) h = h
  Step-InLimit (set_sender st) h = Setter-InLimit st h
  Step-InLimit (write now bytes size) h = h
  Step-InLimit (deliver now delivered_seq seq bytes p) h = h
  Step-InLimit (read buf) h = h
  Step-InLimit (set_receiver st) h = h

  Reach-InLimit :
      {σ τ : Session X} → IsFresh σ → Reach σ τ → InLimit τ.sender.outbound_message_queue
  Reach-InLimit f here = subst InLimit (sym f.sender_queue) tt
  Reach-InLimit f (next reach step) = Step-InLimit step (Reach-InLimit f reach)

  pub fits-send :
      (r : Routing) (now : ℕ) (s : VeilidStream X)
      → InLimit s.outbound_message_queue
      → (send_messages r now s).2 ≡ false
  unfolding send_messages
  fits-send r now s h =
      send_each_fits r (send_messages r now s).0 (due_messages now s.outbound_message_queue)
        (due-All now s.outbound_message_queue h)

  -- At every point of every session of two new streams, whatever was written, neither sending
  -- what waits nor the task of a write, which generates messages first, stops in the panic on a
  -- message above the network's limit.
  pub no_panic :
      {σ τ : Session X} (r : Routing) (now : ℕ)
      → IsFresh σ
      → Reach σ τ
      → ((send_messages r now τ.sender).2 ≡ false) × ((flush r now τ.sender).2 ≡ false)
  unfolding flush
  no_panic {τ = τ} r now f reach =
      let h = Reach-InLimit f reach in
      (
        fits-send r now τ.sender h,
        fits-send r now (generate_messages τ.sender) (generate_messages-InLimit τ.sender h),
      )

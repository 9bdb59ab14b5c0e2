-- ===== src/Session/Sender.antt =====
-- What the operations on the sending side keep.
use libp2p_transport_veilid.Prelude.{
  subst, Bool-cases, is_empty, ℕ, ◌≡◌, refl, sym, ap, ◌∙◌, some, inl, inr, List, [], ◌∷◌, ◌++◌,
  flatten, append_assoc, append-nil, length, u32, arith, Option-cases, ℕ_discrete, ltb,
}
use libp2p_transport_veilid.Prelude.Map.{Map, lookup, modify, lookup-modify, lookup-retain}
use libp2p_transport_veilid.External.{External, Bytes}
use libp2p_transport_veilid.Stream.{VeilidStream, OutboundMessage, update_outbound_delivered_seq}
use libp2p_transport_veilid.Stream.Frames.{to_le_bytes, frame, frames, frames-append}
use libp2p_transport_veilid.Stream.Inbound.{
  remove_sent_messages_from_queue, recv_message, read_inbound_stream, publish, accept,
}
use libp2p_transport_veilid.Stream.Inbound.Cases.{recv_message_cases, accepted_keeps}
use libp2p_transport_veilid.Stream.Inbound.Queue.{packet}
use libp2p_transport_veilid.Stream.Outbound.{
  Routing, insert_to_outbound_stream, mark_sent, due_messages, send_messages,
}
use libp2p_transport_veilid.Stream.Outbound.Packets.{Sends}

abbrev IsQueued : List Bytes → Map ℕ OutboundMessage → Type 0
IsQueued log queue =
    (k : ℕ) (m : OutboundMessage)
    → lookup ℕ_discrete k queue ≡ some m
    → (packet log k ≡ some m.msg) × (m.seq ≡ k)

-- The outbound half that `Sends` is about.
abbrev HalfSends : List Bytes → ℕ × Map ℕ OutboundMessage → Type 0
HalfSends log half = (half.0 ≡ length log) × IsQueued log half.1

-- A new time of the last try changes neither a message's data nor its number.
IsQueued-modify :
    (log : List Bytes) (now j : ℕ) (queue : Map ℕ OutboundMessage)
    → IsQueued log queue
    → IsQueued log (modify ℕ_discrete j (λ e. record e { last_try_send = some now }) queue)
IsQueued-modify log now j queue old k m h = elim (Option-cases (lookup ℕ_discrete k queue)) [
  | inl e ↦
      ground
        (arith, lookup-modify ℕ_discrete j k (λ e. record e { last_try_send = some now }) queue)
  | inr (o, e) ↦ ground (
    arith,
    lookup-modify ℕ_discrete j k (λ e. record e { last_try_send = some now }) queue,
    old k o e,
  )
]

IsQueued-mark_sent :
    (log : List Bytes) (now : ℕ) (messages : List OutboundMessage) (queue : Map ℕ OutboundMessage)
    → IsQueued log queue
    → IsQueued log (mark_sent now messages queue)
unfolding mark_sent
IsQueued-mark_sent log now [] queue old = old
IsQueued-mark_sent log now (m ∷ messages) queue old =
    IsQueued-mark_sent log now messages
      (modify ℕ_discrete m.seq (λ e. record e { last_try_send = some now }) queue)
      (IsQueued-modify log now m.seq queue old)

module _ {X : External} where
  pub send_messages-Sends :
      (log : List Bytes) (r : Routing) (now : ℕ) (s : VeilidStream X)
      → Sends log s
      → Sends log (send_messages r now s).0
  unfolding send_messages
  send_messages-Sends log r now s v = record {
    numbered = v.numbered;
    queued =
        IsQueued-mark_sent log now (due_messages now s.outbound_message_queue)
          s.outbound_message_queue v.queued;
  }

  pub acknowledge-Sends :
      (log : List Bytes) (delivered_seq : ℕ) (s : VeilidStream X)
      → Sends log s
      → Sends log (remove_sent_messages_from_queue (update_outbound_delivered_seq s delivered_seq))
  unfolding remove_sent_messages_from_queue update_outbound_delivered_seq
  acknowledge-Sends log delivered_seq s v = record {
    numbered = v.numbered;
    queued = λ k m h. ground (
      arith,
      lookup-retain ℕ_discrete (λ seq. ltb delivered_seq seq) k s.outbound_message_queue,
      v.queued k m,
    );
  }

  -- Neither touches the stream that waits to be cut.
  pub send_messages-outbound_stream :
      (r : Routing) (now : ℕ) (s : VeilidStream X)
      → (send_messages r now s).0.outbound_stream ≡ s.outbound_stream
  unfolding send_messages
  send_messages-outbound_stream r now s = refl

  pub acknowledge-outbound_stream :
      (delivered_seq : ℕ) (s : VeilidStream X)
      → (remove_sent_messages_from_queue
          (update_outbound_delivered_seq s delivered_seq)).outbound_stream
        ≡ s.outbound_stream
  unfolding remove_sent_messages_from_queue update_outbound_delivered_seq
  acknowledge-outbound_stream delivered_seq s = refl

  accepted-Sends :
      (log : List Bytes) (now delivered_seq : ℕ) (s : VeilidStream X) (bytes : Bytes)
      → Sends log s
      → Sends log (publish now (accept s bytes) delivered_seq).0
  accepted-Sends log now delivered_seq s bytes v =
      let outbound : VeilidStream X → ℕ × Map ℕ OutboundMessage =
        λ t. (t.outbound_last_seq, t.outbound_message_queue) in
      let a = acknowledge-Sends log delivered_seq s v in
      let half : HalfSends log (outbound (publish now (accept s bytes) delivered_seq).0) =
        subst (HalfSends log)
          (sym (accepted_keeps outbound (λ t a b c d e. refl) now delivered_seq s bytes))
          (a.numbered, a.queued) in
      record { numbered = half.0; queued = half.1 }

  -- What the inbound half does keeps the outbound half, up to an acknowledgement.
  pub recv_message-Sends :
      (log : List Bytes) (now delivered_seq seq : ℕ) (s : VeilidStream X) (bytes : Bytes)
      → Sends log s
      → Sends log (recv_message now s delivered_seq seq bytes).0
        × ((recv_message now s delivered_seq seq bytes).0.outbound_stream ≡ s.outbound_stream)
  recv_message-Sends log now delivered_seq seq s bytes v =
      recv_message_cases (λ r. Sends log r.0 × (r.0.outbound_stream ≡ s.outbound_stream)) now
        delivered_seq seq s bytes (v, refl)
        (record { numbered = v.numbered; queued = v.queued }, refl)
        (
          accepted-Sends log now delivered_seq s bytes v,
          accepted_keeps (λ t. t.outbound_stream) (λ t a b c d e. refl) now delivered_seq s bytes
              ∙ acknowledge-outbound_stream delivered_seq s,
        )

  pub read-Sends :
      (log : List Bytes) (s : VeilidStream X) (buf : Bytes)
      → Sends log s
      → Sends log (read_inbound_stream s buf).0
        × ((read_inbound_stream s buf).0.outbound_stream ≡ s.outbound_stream)
  unfolding read_inbound_stream
  read-Sends log s buf v = elim (Bool-cases (is_empty s.inbound_stream)) [
    | inl none_left ↦ rw none_left (v, refl)
    | inr some_left ↦ rw some_left (record { numbered = v.numbered; queued = v.queued }, refl)
  ]

-- A write adds its frame to the text that was written.
pub write-framed :
    {X : External} (now : ℕ) (s : VeilidStream X) (log writes : List Bytes) (bytes : Bytes)
    → flatten log ++ s.outbound_stream ≡ frames writes
    → flatten log ++ (insert_to_outbound_stream now s bytes).0.outbound_stream
      ≡ frames (writes ++ bytes ∷ [])
unfolding insert_to_outbound_stream frames
write-framed now s log writes bytes h =
    ap (λ t. flatten log ++ t)
      (append_assoc s.outbound_stream (to_le_bytes (u32 (length bytes))) bytes)
    ∙ sym (append_assoc (flatten log) s.outbound_stream (frame bytes))
    ∙ ap (λ t. t ++ frame bytes) h
    ∙ sym (
        frames-append writes (bytes ∷ []) ∙ ap (λ t. frames writes ++ t) (append-nil (frame bytes)))

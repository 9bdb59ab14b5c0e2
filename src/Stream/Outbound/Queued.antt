-- ===== src/Stream/Outbound/Queued.antt =====
-- Which messages `generate_messages` puts into the queue, and under which numbers.
use libp2p_transport_veilid.Prelude.{
  ℕ, zero, suc, ◌+◌, ◌≤◌, ◌<◌, ◌^◌, min, ◌≡◌, refl, ap, subst, ◌∙◌, true, none, some, inl, inr,
  List, [], ◌∷◌, ◌++◌, flatten, u32, ltb, lt→ltb, ltb→lt, length, take, drop, All, get_elem?, arith,
  Bool-cases, ℕ_discrete, length-append, length-take, length-drop,
}
use libp2p_transport_veilid.Prelude.Map.{Map, lookup, insert, lookup-insert}
use libp2p_transport_veilid.External.{External, Bytes}
use libp2p_transport_veilid.Stream.{VeilidStream, OutboundMessage}
use libp2p_transport_veilid.Stream.Outbound.{push_message, generate_loop, generate_messages}
use libp2p_transport_veilid.Stream.Outbound.Packets.{
  Sends, chunks, chunks-zero, chunks_done, chunks_more, take-min, drop-min, pieces,
  push_message-Sends, generate_messages-Sends,
}

-- A message that was never sent.
abbrev pub unsent : ℕ → Bytes → OutboundMessage
unsent seq msg = record { seq = seq; msg = msg; last_try_send = none }

-- The queue after new messages were put in after number `n`: each waits under its number, and the
-- numbers up to `n` are as they were.
abbrev pub Queued : ℕ → List Bytes → (before after : Map ℕ OutboundMessage) → Type 0
Queued n new before after =
    ((i : ℕ) (piece : Bytes)
      → get_elem? new i ≡ some piece
      → lookup ℕ_discrete (suc (n + i)) after ≡ some (unsent (suc (n + i)) piece))
    × ((k : ℕ) → k ≤ n → lookup ℕ_discrete k after ≡ lookup ℕ_discrete k before)

Queued-nil : (n : ℕ) (queue : Map ℕ OutboundMessage) → Queued n [] queue queue
Queued-nil n queue = (λ i piece e. cc, λ k le. refl)

lookup_inserted :
    (k : ℕ) (m : OutboundMessage) (queue : Map ℕ OutboundMessage)
    → lookup ℕ_discrete k (insert ℕ_discrete k m queue) ≡ some m
lookup_inserted k m queue = ground (arith, lookup-insert ℕ_discrete k k m queue)

lookup_kept :
    (k j : ℕ) (m : OutboundMessage) (queue : Map ℕ OutboundMessage)
    → j < k
    → lookup ℕ_discrete j (insert ℕ_discrete k m queue) ≡ lookup ℕ_discrete j queue
lookup_kept k j m queue lt = ground (arith, lookup-insert ℕ_discrete k j m queue)

module _ (n : ℕ) (msg : Bytes) (rest : List Bytes) (before after : Map ℕ OutboundMessage)
    (later : Queued
      (suc n)
      rest
      (insert ℕ_discrete (suc n) (unsent (suc n) msg) before)
      after) where
  first_queued :
      (i : ℕ) (piece : Bytes)
      → get_elem? (msg ∷ rest) i ≡ some piece
      → lookup ℕ_discrete (suc (n + i)) after ≡ some (unsent (suc (n + i)) piece)
  first_queued zero piece e =
      let number : suc n ≡ suc (n + zero) = omega arith in
      subst (λ k. lookup ℕ_discrete k after ≡ some (unsent k piece)) number
        (later.1 (suc n) (omega arith) ∙ lookup_inserted (suc n) (unsent (suc n) msg) before ∙ cc)
  first_queued (suc i) piece e =
      subst (λ k. lookup ℕ_discrete k after ≡ some (unsent k piece)) (omega arith)
        (later.0 i piece e)

  Queued-cons : Queued n (msg ∷ rest) before after
  Queued-cons = (
    first_queued,
    λ k le.
        later.1 k (omega (arith, le))
        ∙ lookup_kept (suc n) k (unsent (suc n) msg) before (omega (arith, le)),
  )

Queued-cast :
    {n m : ℕ} {before before' : Map ℕ OutboundMessage} (new : List Bytes)
    (after : Map ℕ OutboundMessage)
    → n ≡ m
    → before ≡ before'
    → Queued n new before after
    → Queued m new before' after
Queued-cast {n} {before' = b} new after e same queued =
    subst (λ k. Queued k new b after) e (subst (λ q. Queued n new q after) same queued)

module _ {X : External} where
  push_message-queue :
      (s : VeilidStream X) (msg : Bytes) (n : ℕ)
      → u32 (s.outbound_last_seq + 1) ≡ n
      → (push_message s msg).outbound_message_queue
        ≡ insert ℕ_discrete n (unsent n msg) s.outbound_message_queue
  unfolding push_message
  push_message-queue s msg n e =
      ap (λ k. insert ℕ_discrete k (unsent k msg) s.outbound_message_queue) e

  generate_loop-Queued :
      (limit fuel : ℕ) (log : List Bytes) (s : VeilidStream X)
      → 0 < limit
      → length log + length s.outbound_stream < 2 ^ 32
      → Sends log s
      → Queued
          (length log)
          (chunks limit fuel s.outbound_stream)
          s.outbound_message_queue
          (generate_loop limit fuel s).outbound_message_queue
  unfolding generate_loop push_message
  generate_loop-Queued limit zero log s p small v =
      rw (chunks-zero limit s.outbound_stream) (Queued-nil (length log) s.outbound_message_queue)
  generate_loop-Queued limit (suc fuel) log s p small v =
      let out = s.outbound_stream in
      let msg = take (min limit (length out)) out in
      elim (Bool-cases (ltb 0 (length out))) [
        | inr done ↦
            rw (done, chunks_done limit (suc fuel) out done)
              (Queued-nil (length log) s.outbound_message_queue)
        | inl some_left ↦
            let size = ltb→lt 0 (length out) some_left in
            let nonempty : ltb 0 (length msg) ≡ true =
              lt→ltb 0 (length msg)
                (omega (arith, size, length-take (min limit (length out)) out)) in
            let t = record s { outbound_stream = drop limit out } in
            let number : u32 (s.outbound_last_seq + 1) ≡ suc (length log) =
              omega (arith, v.numbered, size, small) in
            rw (some_left, chunks_more limit fuel out some_left)
              (rw (nonempty, take-min limit out, drop-min limit out)
                (Queued-cons (length log) (take limit out) (chunks limit fuel (drop limit out))
                  s.outbound_message_queue _
                  (Queued-cast (chunks limit fuel (drop limit out)) _
                    (length-append log (take limit out ∷ []) ∙ omega arith)
                    (push_message-queue t (take limit out) (suc (length log)) number)
                    (generate_loop-Queued limit fuel (log ++ take limit out ∷ [])
                      (push_message t (take limit out)) p
                      (omega (
                        arith,
                        size,
                        length-drop limit out,
                        length-append log (take limit out ∷ []),
                      ))
                      (push_message-Sends log t (take limit out) (omega (arith, size))
                        (record { numbered = v.numbered; queued = v.queued }))))))
      ]

  -- Cutting the outbound stream appends its pieces, of at most 32623 bytes each, to the log. The
  -- piece number `i` then waits, not sent yet, under the number after the log's length plus `i`,
  -- and the numbers of the log are as they were. The stream is left empty, the log's text has grown
  -- by exactly the stream's bytes, and whatever waits is the log's message of its number. The
  -- numbers given so far and the stream's length fit in 32 bits, and all that waited before was
  -- the log's message of its number.
  pub generate_messages-Queued :
      (log : List Bytes) (s : VeilidStream X)
      → length log + length s.outbound_stream < 2 ^ 32
      → Sends log s
      → Queued
          (length log)
          (pieces s.outbound_stream)
          s.outbound_message_queue
          (generate_messages s).outbound_message_queue
        × Sends (log ++ pieces s.outbound_stream) (generate_messages s)
        × ((generate_messages s).outbound_stream ≡ [])
        × (flatten (log ++ pieces s.outbound_stream) ≡ flatten log ++ s.outbound_stream)
        × All (λ piece. (0 < length piece) × (length piece ≤ 32623)) (pieces s.outbound_stream)
  unfolding generate_messages pieces
  generate_messages-Queued log s small v =
      let (sends, none_left, text, limits) = generate_messages-Sends log s small v in
      (
        generate_loop-Queued 32623 (length s.outbound_stream) log s (omega arith) small v,
        sends,
        none_left,
        text,
        limits,
      )

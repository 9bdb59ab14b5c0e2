-- ===== src/Stream/Outbound/Packets.antt =====
-- How `generate_messages` cuts the outbound stream into numbered messages.
use native.Mathlib.Nat.{zero-min, min-zero, suc-min-suc}
use mathlib.Core.Option
use mathlib.Core.Logic.{if_pos, if_neg}
use libp2p_transport_veilid.Prelude.{
  ℕ, zero, suc, ◌+◌, ◌≤◌, ◌<◌, ◌^◌, min, ◌≡◌, refl, sym, ap, subst, ◌∙◌, true, false, none, some,
  inl, inr, List, [], ◌∷◌, ◌++◌, flatten, append_assoc, append-nil, u32, ltb, lt→ltb, ltb→lt,
  if◌then◌else◌, length, take, drop, is_empty, All, arith, Bool-cases, ℕ_discrete, length-append,
  length-take, length-drop, take-append-drop, flatten-append, get_elem?-append_self,
}
use libp2p_transport_veilid.Prelude.Map.{Map, lookup, insert, lookup-insert}
use libp2p_transport_veilid.External.{External, Bytes}
use libp2p_transport_veilid.Config.{settings}
use libp2p_transport_veilid.Stream.{VeilidStream, OutboundMessage}
use libp2p_transport_veilid.Stream.Inbound.Queue.{packet, packet-append}
use libp2p_transport_veilid.Stream.Outbound.{push_message, generate_loop, generate_messages}

-- Pieces of `limit` bytes, the last one shorter.
unfoldable pub chunks : (limit fuel : ℕ) → Bytes → List Bytes
chunks limit zero bytes = []
chunks limit (suc fuel) bytes =
    let rest = chunks limit fuel (drop limit bytes) in
    if is_empty bytes then [] else take limit bytes ∷ rest

-- The messages that a stream is cut into.
unfoldable pub pieces : Bytes → List Bytes
unfolding chunks
pieces bytes = chunks settings.transport_stream_packet_data_size_bytes (length bytes) bytes

-- What a sender holds of its log: the last number given is the log's length, and whatever waits
-- under a number is the message of that number.
pub record Sends {X : External} (log : List Bytes) (s : VeilidStream X) : Type 0 where
  pub numbered : s.outbound_last_seq ≡ length log
  pub queued :
      (k : ℕ) (m : OutboundMessage)
      → lookup ℕ_discrete k s.outbound_message_queue ≡ some m
      → (packet log k ≡ some m.msg) × (m.seq ≡ k)

pub take-min : (n : ℕ) (xs : Bytes) → take (min n (length xs)) xs ≡ take n xs
take-min zero xs = rw (zero-min (length xs))
take-min (suc n) [] = rw (min-zero (suc n))
take-min (suc n) (x ∷ xs) = rw (suc-min-suc n (length xs)) (ap (λ ys. x ∷ ys) (take-min n xs))

pub drop-min : (n : ℕ) (xs : Bytes) → drop (min n (length xs)) xs ≡ drop n xs
drop-min zero xs = rw (zero-min (length xs))
drop-min (suc n) [] = rw (min-zero (suc n))
drop-min (suc n) (x ∷ xs) = rw (suc-min-suc n (length xs)) (drop-min n xs)

-- The pieces are the whole text.
pub flatten-chunks :
    (limit fuel : ℕ) (bytes : Bytes)
    → 0 < limit
    → length bytes ≤ fuel
    → flatten (chunks limit fuel bytes) ≡ bytes
unfolding chunks flatten
flatten-chunks limit zero [] p f = refl
flatten-chunks limit zero (b ∷ bytes) p f = elim f [ ]
flatten-chunks limit (suc fuel) [] p f = refl
flatten-chunks limit (suc fuel) (b ∷ bytes) p f =
    ap (λ t. take limit (b ∷ bytes) ++ t)
      (flatten-chunks limit fuel (drop limit (b ∷ bytes)) p
        (omega (arith, length-drop limit (b ∷ bytes))))
    ∙ take-append-drop limit (b ∷ bytes)

-- No piece is empty, and none is longer than the limit.
pub chunks-All :
    (limit fuel : ℕ) (bytes : Bytes)
    → 0 < limit
    → All (λ piece. (0 < length piece) × (length piece ≤ limit)) (chunks limit fuel bytes)
unfolding chunks
chunks-All limit zero bytes p = tt
chunks-All limit (suc fuel) [] p = tt
chunks-All limit (suc fuel) (b ∷ bytes) p = (
  (omega (arith, length-take limit (b ∷ bytes)), omega (arith, length-take limit (b ∷ bytes))),
  chunks-All limit fuel (drop limit (b ∷ bytes)) p,
)

empty_of_length : (bytes : Bytes) → length bytes ≤ 0 → bytes ≡ []
empty_of_length [] h = refl
empty_of_length (b ∷ bytes) h = elim h [ ]

pub chunks-zero : (limit : ℕ) (bytes : Bytes) → chunks limit zero bytes ≡ []
unfolding chunks
chunks-zero limit bytes = refl

pub chunks_done :
    (limit fuel : ℕ) (bytes : Bytes) → ltb 0 (length bytes) ≡ false → chunks limit fuel bytes ≡ []
unfolding chunks
chunks_done limit zero bytes h = refl
chunks_done limit (suc fuel) [] h = refl
chunks_done limit (suc fuel) (b ∷ bytes) h = absurd (ground arith)

pub chunks_more :
    (limit fuel : ℕ) (bytes : Bytes)
    → ltb 0 (length bytes) ≡ true
    → chunks limit (suc fuel) bytes ≡ take limit bytes ∷ chunks limit fuel (drop limit bytes)
unfolding chunks
chunks_more limit fuel [] h = absurd (ground arith)
chunks_more limit fuel (b ∷ bytes) h = refl

-- The messages that wait, after one more under the next number.
queued_insert :
    (log : List Bytes) (msg : Bytes) (queue : Map ℕ OutboundMessage) (seq : ℕ)
    → seq ≡ suc (length log)
    → ((k : ℕ) (m : OutboundMessage)
        → lookup ℕ_discrete k queue ≡ some m
        → (packet log k ≡ some m.msg) × (m.seq ≡ k))
    → (k : ℕ) (m : OutboundMessage)
    → lookup ℕ_discrete k
        (insert ℕ_discrete seq (record { seq = seq; msg = msg; last_try_send = none }) queue)
      ≡ some m
    → (packet (log ++ msg ∷ []) k ≡ some m.msg) × (m.seq ≡ k)
queued_insert log msg queue seq e old k m h =
    let last : packet (log ++ msg ∷ []) (suc (length log)) ≡ some msg =
      get_elem?-append_self log [] msg in
    let fresh : OutboundMessage = record { seq = seq; msg = msg; last_try_send = none } in
    let found = sym (lookup-insert ℕ_discrete seq k fresh queue) ∙ h in
    elim (ℕ_discrete seq k) [
      | yes same ↦
          let k_last : k ≡ suc (length log) = sym same ∙ e in
          let entry : some fresh ≡ some m =
            sym (if_pos (ℕ_discrete seq k) same (some fresh) (lookup ℕ_discrete k queue)) ∙ found in
          (
            subst (λ j. packet (log ++ msg ∷ []) j ≡ some m.msg) (sym k_last)
                (last ∙ ap (Option.map (λ (x : OutboundMessage). x.msg)) entry),
            ground arith,
          )
      | no other ↦
          let (p, q) = old k m (
            sym (if_neg (ℕ_discrete seq k) other (some fresh) (lookup ℕ_discrete k queue))
            ∙ found) in
          (packet-append log (msg ∷ []) k p, q)
    ]

module _ {X : External} where
  pub push_message-Sends :
      (log : List Bytes) (s : VeilidStream X) (msg : Bytes)
      → suc (length log) < 2 ^ 32
      → Sends log s
      → Sends (log ++ msg ∷ []) (push_message s msg)
  unfolding push_message
  push_message-Sends log s msg small v = record {
    numbered = omega (arith, v.numbered, length-append log (msg ∷ []));
    queued =
        queued_insert log msg s.outbound_message_queue (u32 (s.outbound_last_seq + 1))
          (omega (arith, v.numbered)) v.queued;
  }

  -- A cut of the stream appends its pieces to the log under the next numbers, and leaves no byte.
  generate_loop-Sends :
      (limit fuel : ℕ) (log : List Bytes) (s : VeilidStream X)
      → 0 < limit
      → length s.outbound_stream ≤ fuel
      → length log + length s.outbound_stream < 2 ^ 32
      → Sends log s
      → Sends (log ++ chunks limit fuel s.outbound_stream) (generate_loop limit fuel s)
        × ((generate_loop limit fuel s).outbound_stream ≡ [])
  unfolding generate_loop push_message
  generate_loop-Sends limit zero log s p f small v = (
    rw (chunks-zero limit s.outbound_stream, append-nil log) v,
    empty_of_length s.outbound_stream f,
  )
  generate_loop-Sends limit (suc fuel) log s p f small v =
      let out = s.outbound_stream in
      let msg = take (min limit (length out)) out in
      elim (Bool-cases (ltb 0 (length out))) [
        | inr done ↦
            rw (done, chunks_done limit (suc fuel) out done)
              (rw (append-nil log) v, empty_of_length out (ground arith))
        | inl some_left ↦
            let size = ltb→lt 0 (length out) some_left in
            let nonempty : ltb 0 (length msg) ≡ true =
              lt→ltb 0 (length msg)
                (omega (arith, size, length-take (min limit (length out)) out)) in
            let t = record s { outbound_stream = drop limit out } in
            rw
              (
                some_left,
                chunks_more limit fuel out some_left,
                ← append_assoc log (take limit out ∷ []) (chunks limit fuel (drop limit out)),
              )
              (rw (nonempty, take-min limit out, drop-min limit out)
                (generate_loop-Sends limit fuel (log ++ take limit out ∷ [])
                  (push_message t (take limit out)) p (omega (arith, size, length-drop limit out))
                  (omega
                    (arith, size, length-drop limit out, length-append log (take limit out ∷ [])))
                  (push_message-Sends log t (take limit out) (omega (arith, size))
                    (record { numbered = v.numbered; queued = v.queued }))))
      ]

  -- The loop with the code's limit and enough fuel.
  pub generate_messages-Sends :
      (log : List Bytes) (s : VeilidStream X)
      → length log + length s.outbound_stream < 2 ^ 32
      → Sends log s
      → Sends (log ++ pieces s.outbound_stream) (generate_messages s)
        × ((generate_messages s).outbound_stream ≡ [])
        × (flatten (log ++ pieces s.outbound_stream) ≡ flatten log ++ s.outbound_stream)
        × All (λ piece. (0 < length piece) × (length piece ≤ 32623)) (pieces s.outbound_stream)
  unfolding generate_messages pieces
  generate_messages-Sends log s small v =
      let out = s.outbound_stream in
      let (sends, none_left) =
        generate_loop-Sends 32623 (length out) log s (omega arith) (omega arith) small v in
      (
        sends,
        none_left,
        flatten-append log (chunks 32623 (length out) out)
            ∙ ap (λ t. flatten log ++ t)
                (flatten-chunks 32623 (length out) out (omega arith) (omega arith)),
        chunks-All 32623 (length out) out (omega arith),
      )

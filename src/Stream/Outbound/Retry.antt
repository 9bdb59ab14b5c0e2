-- ===== src/Stream/Outbound/Retry.antt =====
-- When a message is sent again, and that its size never stops the sending.
use mathlib.Core.Option
use libp2p_transport_veilid.Prelude.{
  ℕ, ◌+◌, ◌≤◌, ◌<◌, ◌≡◌, refl, Bool, true, false, some, inl, inr, List, [], ◌∷◌, ◌||◌, ◌==◌, length,
  All, arith, Bool-cases, ℕ_discrete, if◌then◌else◌,
}
use libp2p_transport_veilid.Prelude.Map.{Map, lookup, modify, lookup-modify}
use libp2p_transport_veilid.External.{External, Bytes}
use libp2p_transport_veilid.Stream.{VeilidStream, OutboundMessage}
use libp2p_transport_veilid.Stream.Outbound.{
  Routing, is_due, due_messages, mark_sent, send_each, send_messages,
}
use libp2p_transport_veilid.Stream.Outbound.Packets.{Sends}

abbrev touch : ℕ → OutboundMessage → OutboundMessage
touch now m = record m { last_try_send = some now }

-- Whether one of the messages has the number.
abbrev has_seq : ℕ → List OutboundMessage → Bool
has_seq k [] = false
has_seq k (m ∷ messages) = m.seq == k || has_seq k messages

lookup-mark_sent :
    (now k : ℕ) (messages : List OutboundMessage) (queue : Map ℕ OutboundMessage)
    → lookup ℕ_discrete k (mark_sent now messages queue) ≡ (
        if has_seq k messages
        then Option.map (touch now) (lookup ℕ_discrete k queue)
        else lookup ℕ_discrete k queue)
unfolding mark_sent
lookup-mark_sent now k [] queue = refl
lookup-mark_sent now k (m ∷ messages) queue = ground (
  arith,
  lookup-mark_sent now k messages (modify ℕ_discrete m.seq (touch now) queue),
  lookup-modify ℕ_discrete m.seq k (touch now) queue,
)

due-has_seq :
    (now k : ℕ) (queue : Map ℕ OutboundMessage) (m : OutboundMessage)
    → lookup ℕ_discrete k queue ≡ some m
    → m.seq ≡ k
    → is_due now m ≡ true
    → has_seq k (due_messages now queue) ≡ true
unfolding lookup due_messages
due-has_seq now k [] m h e due = cc
due-has_seq now k ((j, o) ∷ queue) m h e due = ground (arith, due-has_seq now k queue m)

-- Messages within the network's limit.
abbrev pub InLimit : Map ℕ OutboundMessage → Type 0
InLimit = All λ e. length e.1.msg ≤ 32768

pub due-All :
    (now : ℕ) (queue : Map ℕ OutboundMessage)
    → All (λ e. length e.1.msg ≤ 32768) queue
    → All (λ m. length m.msg ≤ 32768) (due_messages now queue)
unfolding due_messages
due-All now [] h = tt
due-All now ((k, m) ∷ queue) h = elim (Bool-cases (is_due now m)) [
  | inl due ↦ rw due (h.0, due-All now queue h.1)
  | inr early ↦ rw early (due-All now queue h.1)
]

module _ {X : External} where
  -- A message that waits in the queue of a stream that agrees with its log, and is due, still
  -- waits with the same data after `send_messages`, and is not due again before five seconds
  -- after that.
  pub send_messages-waits :
      (r : Routing) (now t k : ℕ) (log : List Bytes) (s : VeilidStream X) (m : OutboundMessage)
      → Sends log s
      → lookup ℕ_discrete k s.outbound_message_queue ≡ some m
      → is_due now m ≡ true
      → t < now + 5_000_000_000
      → (n : OutboundMessage) × (lookup ℕ_discrete k
            (send_messages r now s).0.outbound_message_queue
          ≡ some n)
        × (n.msg ≡ m.msg)
        × (is_due t n ≡ false)
  unfolding send_messages
  send_messages-waits r now t k log s m v h due soon =
      let queue = s.outbound_message_queue in
      (
        touch now m,
        ground (
          arith,
          lookup-mark_sent now k (due_messages now queue) queue,
          due-has_seq now k queue m h (v.queued k m h).1 due,
        ),
        refl,
        ground arith,
      )

  pub send_each_fits :
      (r : Routing) (s : VeilidStream X) (messages : List OutboundMessage)
      → All (λ m. length m.msg ≤ 32768) messages
      → (send_each r s messages).1 ≡ false
  unfolding send_each
  send_each_fits r s [] h = refl
  send_each_fits r s (m ∷ messages) h = ground (arith, send_each_fits r s messages h.1)

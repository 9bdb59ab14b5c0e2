-- ===== src/Stream/Inbound/Queue.antt =====
-- The messages that wait behind the next one, against the log of all messages that were sent.
use libp2p_transport_veilid.Prelude.{
  ℕ, zero, suc, ◌+◌, ◌≤◌, ◌<◌, ◌^◌, ◌≡◌, ◌⊎◌, refl, sym, ap, ◌∙◌, Option, none, some, inl, inr,
  List, [], ◌∷◌, ◌++◌, flatten, append_assoc, u32, length, get_elem?, take, arith, ℕ_discrete,
  dec_lt, subst, Option-cases, flatten-take-suc, get_elem?-lt-length, get_elem?-append,
}
use libp2p_transport_veilid.Prelude.Map.{Map, lookup, remove, lookup-remove, length-remove_lt}
use libp2p_transport_veilid.External.{External, Bytes}
use libp2p_transport_veilid.Stream.{VeilidStream}
use libp2p_transport_veilid.Stream.Inbound.{drain_queue}

-- Message number `k` of the sender's log; numbers start at 1.
abbrev pub packet : List Bytes → ℕ → Option Bytes
packet log zero = none
packet log (suc i) = get_elem? log i

-- Whatever is kept under a number is the message of that number.
abbrev pub IsStored : List Bytes → Map ℕ Bytes → Type 0
IsStored log queue =
    (k : ℕ) (bytes : Bytes) → lookup ℕ_discrete k queue ≡ some bytes → packet log k ≡ some bytes

pub packet-le-length :
    (log : List Bytes) (k : ℕ) {bytes : Bytes} → packet log k ≡ some bytes → k ≤ length log
packet-le-length log zero h = omega arith
packet-le-length log (suc i) h = get_elem?-lt-length log i h

-- A log that grows keeps its numbers.
pub packet-append :
    (log more : List Bytes) (k : ℕ) {bytes : Bytes}
    → packet log k ≡ some bytes
    → packet (log ++ more) k ≡ some bytes
packet-append log more zero h = h
packet-append log more (suc i) h = get_elem?-append log more i h

-- The next message extends what was received.
pub received-packet :
    (log : List Bytes) (n : ℕ) (consumed buffer bytes : Bytes)
    → consumed ++ buffer ≡ flatten (take n log)
    → packet log (suc n) ≡ some bytes
    → consumed ++ (buffer ++ bytes) ≡ flatten (take (suc n) log)
received-packet log n consumed buffer bytes h p =
    sym (append_assoc consumed buffer bytes)
    ∙ ap (λ front. front ++ bytes) h
    ∙ sym (flatten-take-suc log n p)

pub IsStored-remove :
    (log : List Bytes) (queue : Map ℕ Bytes) (k : ℕ)
    → IsStored log queue
    → IsStored log (remove ℕ_discrete k queue)
IsStored-remove log queue k stored j bytes h =
    stored j bytes (ground (arith, lookup-remove ℕ_discrete k j queue))

-- What the loop leaves: the data up to number `r.1` is received, and the next number does not wait.
-- Exactly the numbers after `n` up to `r.1` were taken from the queue, where they waited with the
-- log's messages.
pub record Drained {X : External} (log : List Bytes) (consumed : Bytes) (s : VeilidStream X) (n : ℕ)
    (r : VeilidStream X × ℕ) : Type 0 where
  pub grows : n ≤ r.1
  pub within : r.1 ≤ length log
  pub stored : IsStored log r.0.inbound_message_queue
  pub received : consumed ++ r.0.inbound_buffer ≡ flatten (take r.1 log)
  pub next_missing : lookup ℕ_discrete (u32 (r.1 + 1)) r.0.inbound_message_queue ≡ none
  pub taken :
      (k : ℕ)
      → n < k
      → k ≤ r.1
      → (lookup ℕ_discrete k s.inbound_message_queue ≡ packet log k)
        × (lookup ℕ_discrete k r.0.inbound_message_queue ≡ none)
  pub others :
      (k : ℕ)
      → (k ≤ n) ⊎ (r.1 < k)
      → lookup ℕ_discrete k r.0.inbound_message_queue ≡ lookup ℕ_discrete k s.inbound_message_queue
  pub rest_same : r.0 ≡ record s {
    inbound_buffer = r.0.inbound_buffer;
    inbound_message_queue = r.0.inbound_message_queue;
  }

-- The numbers do not wrap below the end of a log that is numbered in 32 bits.
pub u32-suc :
    (log : List Bytes) (n : ℕ) (bytes : Bytes)
    → length log < 2 ^ 32
    → n ≤ length log
    → packet log (u32 (n + 1)) ≡ some bytes
    → u32 (n + 1) ≡ suc n
u32-suc log n bytes small h p = elim (dec_lt (n + 1) (2 ^ 32)) [
  | yes fits ↦ omega arith
  | no over ↦
      let wrapped : u32 (n + 1) ≡ zero = omega arith in
      let unsent : packet log zero ≡ some bytes =
        subst (λ k. packet log k ≡ some bytes) wrapped p in
      cc
]

lookup_empty : (k : ℕ) (queue : Map ℕ Bytes) → length queue ≤ 0 → lookup ℕ_discrete k queue ≡ none
unfolding lookup
lookup_empty k [] h = refl
lookup_empty k (e ∷ queue) h = elim h [ ]

remove_other :
    (k j : ℕ) (queue : Map ℕ Bytes)
    → ¬ (k ≡ j)
    → lookup ℕ_discrete j (remove ℕ_discrete k queue) ≡ lookup ℕ_discrete j queue
remove_other k j queue other = ground (arith, lookup-remove ℕ_discrete k j queue)

outside_next : (n k m : ℕ) → u32 (n + 1) ≡ suc n → (k ≤ n) ⊎ (m < k) → (k ≤ u32 (n + 1)) ⊎ (m < k)
outside_next n k m one (inl low) = inl (omega (arith, one, low))
outside_next n k m one (inr high) = inr high

outside_other :
    (n k m : ℕ) → u32 (n + 1) ≡ suc n → u32 (n + 1) ≤ m → u32 (n + 1) ≡ k → ¬ ((k ≤ n) ⊎ (m < k))
outside_other n k m one grows same (inl low) = omega (arith, one, same, low)
outside_other n k m one grows same (inr high) = omega (arith, same, grows, high)

module _ {X : External} (log : List Bytes) (consumed : Bytes) (small : length log < 2 ^ 32) where
  stopped :
      (s : VeilidStream X) (n : ℕ)
      → n ≤ length log
      → IsStored log s.inbound_message_queue
      → consumed ++ s.inbound_buffer ≡ flatten (take n log)
      → lookup ℕ_discrete (u32 (n + 1)) s.inbound_message_queue ≡ none
      → Drained log consumed s n (s, n)
  stopped s n h stored received e = record {
    grows = omega arith;
    within = h;
    stored = stored;
    received = received;
    next_missing = e;
    taken = λ k low high. absurd (omega (arith, low, high));
    others = λ k outside. refl;
    rest_same = refl;
  }

  -- The stream after one round.
  abbrev next_received : VeilidStream X → ℕ → Bytes → VeilidStream X
  next_received s n bytes = record s {
    inbound_message_queue = remove ℕ_discrete (u32 (n + 1)) s.inbound_message_queue;
    inbound_buffer = s.inbound_buffer ++ bytes;
  }

  resumed :
      (s : VeilidStream X) (n : ℕ) (bytes : Bytes) (r : VeilidStream X × ℕ)
      → u32 (n + 1) ≡ suc n
      → lookup ℕ_discrete (u32 (n + 1)) s.inbound_message_queue ≡ some bytes
      → packet log (u32 (n + 1)) ≡ some bytes
      → Drained log consumed (next_received s n bytes) (u32 (n + 1)) r
      → Drained log consumed s n r
  resumed s n bytes r one there sent d = record {
    grows = omega (arith, one, d.grows);
    within = d.within;
    stored = d.stored;
    received = d.received;
    next_missing = d.next_missing;
    taken = λ k low high. elim (ℕ_discrete (u32 (n + 1)) k) [
      | yes same ↦ (
        subst (λ j. lookup ℕ_discrete j s.inbound_message_queue ≡ packet log j) same
            (there ∙ sym sent),
        d.others k (inl (omega (arith, same)))
            ∙ ground (arith, lookup-remove ℕ_discrete (u32 (n + 1)) k s.inbound_message_queue),
      )
      | no other ↦
          let (found, gone) = d.taken k (omega (arith, one, other, low)) high in
          (sym (remove_other (u32 (n + 1)) k s.inbound_message_queue other) ∙ found, gone)
    ];
    others = λ k outside.
        d.others k (outside_next n k r.1 one outside)
        ∙ remove_other (u32 (n + 1)) k s.inbound_message_queue
            (λ same. outside_other n k r.1 one d.grows same outside);
    rest_same = d.rest_same;
  }

  -- With as much fuel as messages wait, where the buffer ends with message `n` of a log numbered in
  -- 32 bits and only messages of the log wait, the loop stops: it has appended the messages after
  -- `n` in order up to a message that does not wait, has taken exactly these, each of which
  -- waited, from the queue, and has changed nothing else.
  pub drain_queue-Drained :
      (fuel : ℕ) (s : VeilidStream X) (n : ℕ)
      → length s.inbound_message_queue ≤ fuel
      → n ≤ length log
      → IsStored log s.inbound_message_queue
      → consumed ++ s.inbound_buffer ≡ flatten (take n log)
      → Drained log consumed s n (drain_queue fuel s n)
  unfolding drain_queue
  drain_queue-Drained zero s n f h stored received =
      stopped s n h stored received (lookup_empty _ s.inbound_message_queue f)
  drain_queue-Drained (suc fuel) s n f h stored received =
      elim (Option-cases (lookup ℕ_discrete (u32 (n + 1)) s.inbound_message_queue)) [
        | inl e ↦ rw (e, drain_queue) (stopped s n h stored received e)
        | inr (bytes, e) ↦
            rw (e, drain_queue)
              (let k = u32-suc log n bytes small h (stored _ bytes e) in
                resumed s n bytes _ k e (stored _ bytes e) (
                  drain_queue-Drained fuel (next_received s n bytes) (u32 (n + 1))
                    (omega (
                      arith,
                      length-remove_lt ℕ_discrete (u32 (n + 1)) s.inbound_message_queue bytes e,
                    ))
                    (packet-le-length log (u32 (n + 1)) (stored _ bytes e))
                    (IsStored-remove log s.inbound_message_queue (u32 (n + 1)) stored)
                    (rw k (
                      received-packet log n consumed s.inbound_buffer bytes received
                        (rw k at (stored _ bytes e))))))
      ]

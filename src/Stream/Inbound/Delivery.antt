-- ===== src/Stream/Inbound/Delivery.antt =====
-- In-order, exactly-once delivery: what a stream has received, against the sender's log.
use mathlib.Core.List.{append_cancel_left}
use libp2p_transport_veilid.Prelude.{
  ℕ, suc, ◌+◌, ◌≤◌, ◌<◌, ◌^◌, ◌≡◌, sym, ap, subst, ◌∙◌, false, some, inl, inr, List, [], ◌∷◌, ◌++◌,
  flatten, append_assoc, u32, ltb, leb, length, take, drop, arith, Bool-cases, flatten-take_split,
  flatten-append, ℕ_discrete,
}
use libp2p_transport_veilid.Prelude.Map.{insert, lookup-insert}
use libp2p_transport_veilid.External.{External, Bytes}
use libp2p_transport_veilid.Stream.{VeilidStream, is_active, update_inbound_last_timestamp_to_now}
use libp2p_transport_veilid.Stream.Frames.{
  frames, Fits, IsIncomplete, is_short_header, Split, frames-Split, frames-append,
}
use libp2p_transport_veilid.Stream.Inbound.{recv_message, recv_inbound_buffer, accept, publish}
use libp2p_transport_veilid.Stream.Inbound.Slices.{update_inbound_stream-frames}
use libp2p_transport_veilid.Stream.Inbound.Queue.{
  packet, IsStored, packet-le-length, received-packet, Drained, drain_queue-Drained,
}

-- No message of the log ends inside a slice's header.
abbrev pub HeadersWhole : List Bytes → Type 0
HeadersWhole log =
    (n : ℕ) (whole : List Bytes) (rest : Bytes)
    → n ≤ length log
    → flatten (take n log) ≡ frames whole ++ rest
    → Fits whole
    → IsIncomplete rest
    → is_short_header rest ≡ false

-- What a receiver holds of a log: the messages up to its cursor, cut into the slices that were
-- written; the slices that are whole have been read or can be.
pub record Receives {X : External} (log writes : List Bytes) (output : Bytes) (s : VeilidStream X)
    : Type 0 where
  pub whole : List Bytes
  pub more : List Bytes
  pub within : s.inbound_received_seq ≤ length log
  pub stored : IsStored log s.inbound_message_queue
  pub joined : whole ++ more ≡ writes
  pub received : frames whole ++ s.inbound_buffer ≡ flatten (take s.inbound_received_seq log)
  pub readable : output ++ s.inbound_stream ≡ flatten whole
  pub incomplete : IsIncomplete s.inbound_buffer

-- The sender's side: its log and what it has not cut yet are what was written.
pub record Written (log writes : List Bytes) : Type 0 where
  pub uncut : Bytes
  pub framed : flatten log ++ uncut ≡ frames writes
  pub fits : Fits writes
  pub small : length log < 2 ^ 32

pub Fits-append : (xs ys : List Bytes) → Fits (xs ++ ys) → Fits xs × Fits ys
Fits-append [] ys h = (tt, h)
Fits-append (x ∷ xs) ys h = let (a, b) = Fits-append xs ys h.1 in ((h.0, a), b)

module _ (log writes : List Bytes) (w : Written log writes) where
  -- The rest of the log, after a cursor, is cut where the slices end.
  whole_slices :
      (whole more : List Bytes) (m : ℕ) (buffer : Bytes)
      → whole ++ more ≡ writes
      → frames whole ++ buffer ≡ flatten (take m log)
      → Split more buffer
  whole_slices whole more m buffer joined received =
      frames-Split more buffer (flatten (drop m log) ++ w.uncut)
        (Fits-append whole more (rw joined w.fits)).1
        (append_cancel_left (frames whole) _ _ (
          sym (append_assoc (frames whole) buffer _)
          ∙ ap (λ t. t ++ (flatten (drop m log) ++ w.uncut)) received
          ∙ sym (append_assoc (flatten (take m log)) (flatten (drop m log)) w.uncut)
          ∙ ap (λ t. t ++ w.uncut) (flatten-take_split log m)
          ∙ w.framed
          ∙ ap frames (sym joined)
          ∙ frames-append whole more))

-- Neither a duplicate nor ahead of the next: it is the next.
is_next :
    (received seq : ℕ)
    → leb seq received ≡ false
    → ltb (u32 (received + 1)) seq ≡ false
    → received < 2 ^ 32
    → (seq ≡ suc received) × (u32 (received + 1) ≡ seq)
is_next received seq fresh next small = ground arith

module _ {X : External} (log writes : List Bytes) (output : Bytes) (w : Written log writes) where
  stored_ahead :
      (s : VeilidStream X) (k : ℕ) (bytes : Bytes)
      → Receives log writes output s
      → packet log k ≡ some bytes
      → Receives log writes output
          (record s { inbound_message_queue = insert ℕ_discrete k bytes s.inbound_message_queue })
  stored_ahead s k bytes v p = record {
    whole = v.whole;
    more = v.more;
    within = v.within;
    stored = λ j b h.
        ground (arith, lookup-insert ℕ_discrete k j bytes s.inbound_message_queue, v.stored j b);
    joined = v.joined;
    received = v.received;
    readable = v.readable;
    incomplete = v.incomplete;
  }

  -- What `publish` leaves, where the received data splits into whole slices and a rest.
  published :
      (now delivered_seq : ℕ) (s : VeilidStream X) (v : Receives log writes output s)
      (t : VeilidStream X) (n : ℕ) (r : VeilidStream X × ℕ)
      → HeadersWhole log
      → r.0.inbound_stream ≡ s.inbound_stream
      → Drained log (frames v.whole) t n r
      → Receives log writes output (publish now r delivered_seq).0
  unfolding publish
  published now delivered_seq s v t n r headers same d =
      let b = whole_slices log writes w v.whole v.more r.1 r.0.inbound_buffer v.joined d.received in
      let joined : (v.whole ++ b.whole) ++ b.more ≡ writes =
        append_assoc v.whole b.whole b.more ∙ ap (λ l. v.whole ++ l) b.joined ∙ v.joined in
      let fits : Fits (v.whole ++ b.whole) =
        (Fits-append (v.whole ++ b.whole) b.more (rw joined w.fits)).0 in
      let received : frames (v.whole ++ b.whole) ++ b.rest ≡ flatten (take r.1 log) =
        ap (λ t. t ++ b.rest) (frames-append v.whole b.whole)
        ∙ append_assoc (frames v.whole) (frames b.whole) b.rest
        ∙ ap (λ t. frames v.whole ++ t) (sym b.cut)
        ∙ d.received in
      let header =
        headers r.1 (v.whole ++ b.whole) b.rest d.within (sym received) fits b.incomplete in
      let cut =
        update_inbound_stream-frames _ b.whole b.rest b.cut (Fits-append v.whole b.whole fits).1
          b.incomplete in
      subst (Receives log writes output)
        (sym (ap (λ p. update_inbound_last_timestamp_to_now now p.0) cut))
        (record {
          whole = v.whole ++ b.whole;
          more = b.more;
          within = d.within;
          stored = d.stored;
          joined = joined;
          received = received;
          readable = rw header (
              sym (append_assoc output r.0.inbound_stream (flatten b.whole))
              ∙ ap (λ t. (output ++ t) ++ flatten b.whole) same
              ∙ ap (λ t. t ++ flatten b.whole) v.readable
              ∙ sym (flatten-append v.whole b.whole));
          incomplete = b.incomplete;
        })

  pub accept-Drained :
      (s : VeilidStream X) (seq : ℕ) (bytes : Bytes) (v : Receives log writes output s)
      → packet log seq ≡ some bytes
      → (seq ≡ suc s.inbound_received_seq) × (u32 (s.inbound_received_seq + 1) ≡ seq)
      → Drained log (frames v.whole) (recv_inbound_buffer s bytes) seq (accept s bytes)
  unfolding accept
  accept-Drained s seq bytes v p (next, exact) = rw exact (
      drain_queue-Drained log (frames v.whole) w.small (length s.inbound_message_queue)
        (recv_inbound_buffer s bytes) seq (omega arith) (packet-le-length log seq p) v.stored
        (rw next (
          received-packet log s.inbound_received_seq (frames v.whole) s.inbound_buffer bytes
            v.received (rw next at p))))

  accepted :
      (now delivered_seq seq : ℕ) (bytes : Bytes) (s : VeilidStream X)
      → HeadersWhole log
      → packet log seq ≡ some bytes
      → Receives log writes output s
      → (seq ≡ suc s.inbound_received_seq) × (u32 (s.inbound_received_seq + 1) ≡ seq)
      → Receives log writes output (publish now (accept s bytes) delivered_seq).0
  unfolding recv_inbound_buffer
  accepted now delivered_seq seq bytes s headers p v next =
      let d = accept-Drained s seq bytes v p next in
      published now delivered_seq s v (recv_inbound_buffer s bytes) seq (accept s bytes) headers
        (ap (λ t. t.inbound_stream) d.rest_same) d

  -- Any message of the log, in any order and any number of times, leaves a receiver that holds
  -- the log up to its cursor, provided that no message ends inside a slice's header.
  pub recv_message-Receives :
      (now delivered_seq seq : ℕ) (bytes : Bytes) (s : VeilidStream X)
      → HeadersWhole log
      → packet log seq ≡ some bytes
      → Receives log writes output s
      → Receives log writes output (recv_message now s delivered_seq seq bytes).0
  unfolding recv_message
  recv_message-Receives now delivered_seq seq bytes s headers p v =
      let received = s.inbound_received_seq in
      elim (Bool-cases (leb seq received)) [
        | inl dup ↦ rw dup v
        | inr fresh ↦ rw fresh (elim (Bool-cases (ltb (u32 (received + 1)) seq)) [
          | inl ahead ↦ rw ahead (elim (Bool-cases (ltb seq (u32 (received + 20)))) [
            | inl near ↦ rw near (stored_ahead s seq bytes v p)
            | inr far ↦ rw far v
          ])
          | inr next ↦ rw next (elim (Bool-cases (is_active now s)) [
            | inl alive ↦ rw alive (
                accepted now delivered_seq seq bytes s headers p v
                  (is_next received seq fresh next (omega (arith, v.within, w.small))))
            | inr dead ↦ rw dead v
          ])
        ])
      ]

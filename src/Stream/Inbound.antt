-- ===== src/Stream/Inbound.antt =====
-- src/stream.rs, inbound half: a message is accepted in order, stored or dropped; accepted data is
-- cut into slices; whole slices become readable.
pub mod Slices
pub mod Cases
pub mod Queue
pub mod Delivery
use libp2p_transport_veilid.Prelude.{
  ℕ, zero, suc, ◌+◌, min, Bool, true, false, Option, none, some, List, [], ◌∷◌, ◌++◌, flatten, ltb,
  leb, u32, if◌then◌else◌, length, is_empty, get_or, take, drop, ℕ_discrete,
}
use libp2p_transport_veilid.Prelude.Map.{lookup, insert, remove, retain}
use libp2p_transport_veilid.External.{External, Bytes}
use libp2p_transport_veilid.Stream.{
  VeilidStream, Effect, is_active, wake_to_read, get_inbound_received_seq,
  get_outbound_delivered_seq, update_inbound_received_seq, update_outbound_delivered_seq,
  update_inbound_last_timestamp_to_now,
}
use libp2p_transport_veilid.Stream.Frames.{from_le_bytes}

-- How the loop of `update_inbound_stream` ends: `returned` is its early return on a short header.
pub record Collected : Type 0 where
  pub buffer : Bytes
  pub complete_slices : List Bytes
  pub returned : Bool

-- The loop. Every round takes four bytes at least, so the buffer's length is enough fuel.
unfoldable pub collect_slices : ℕ → Bytes → List Bytes → Collected
collect_slices zero buffer slices = record {
  buffer = buffer;
  complete_slices = slices;
  returned = false;
}
collect_slices (suc fuel) buffer slices =
    let slice_len =
      from_le_bytes (get_or buffer 0 0) (get_or buffer 1 0) (get_or buffer 2 0)
        (get_or buffer 3 0) in
    let next =
      collect_slices fuel (drop (slice_len + 4) buffer)
        (slices ++ drop 4 (take (slice_len + 4) buffer) ∷ []) in
    if is_empty buffer
    then record { buffer = buffer; complete_slices = slices; returned = false }
    else if ltb (length buffer) 4
    then record { buffer = buffer; complete_slices = slices; returned = true }
    else if leb (slice_len + 4) (length buffer)
    then next
    else record { buffer = buffer; complete_slices = slices; returned = false }

module _ {X : External} where
  unfoldable pub recv_inbound_buffer : VeilidStream X → Bytes → VeilidStream X
  recv_inbound_buffer s bytes = record s { inbound_buffer = s.inbound_buffer ++ bytes }

  unfoldable pub update_inbound_stream : VeilidStream X → VeilidStream X × List (Effect X)
  unfolding wake_to_read
  update_inbound_stream s =
      let c = collect_slices (length s.inbound_buffer) s.inbound_buffer [] in
      let t = record s { inbound_buffer = c.buffer } in
      if c.returned then (t, []) else if is_empty c.complete_slices then (t, []) else (
        record t { inbound_stream = s.inbound_stream ++ flatten c.complete_slices },
        wake_to_read s,
      )

  -- The stream, the caller's buffer with the data copied to its front, and the count of bytes.
  unfoldable pub read_inbound_stream : VeilidStream X → Bytes → VeilidStream X × Bytes × Option ℕ
  read_inbound_stream s buf =
      let readable = min (length buf) (length s.inbound_stream) in
      if is_empty s.inbound_stream then (s, buf, none) else (
        record s { inbound_stream = drop readable s.inbound_stream },
        take readable s.inbound_stream ++ drop readable buf,
        some readable,
      )

  unfoldable pub remove_sent_messages_from_queue : VeilidStream X → VeilidStream X
  unfolding get_outbound_delivered_seq
  remove_sent_messages_from_queue s = record s {
    outbound_message_queue =
        retain (λ seq. ltb (get_outbound_delivered_seq s) seq) s.outbound_message_queue;
  }

  -- `while let Some(data) = queue.remove(&(final_seq + 1))`. Every round removes a key, so the
  -- queue's length is enough fuel. The numbers wrap as in a release build.
  unfoldable pub drain_queue : ℕ → VeilidStream X → ℕ → VeilidStream X × ℕ
  unfolding recv_inbound_buffer
  drain_queue zero s final_seq = (s, final_seq)
  drain_queue (suc fuel) s final_seq =
      elim (lookup ℕ_discrete (u32 (final_seq + 1)) s.inbound_message_queue) [
        | none ↦ (s, final_seq)
        | some bytes ↦
            drain_queue fuel
              (recv_inbound_buffer
                (record s {
                  inbound_message_queue =
                      remove ℕ_discrete (u32 (final_seq + 1)) s.inbound_message_queue;
                })
                bytes)
              (u32 (final_seq + 1))
      ]

  -- The branch of `recv_message` for the next message, on an active stream: it is received with all
  -- that wait behind it. What follows, `publish`, is the chain under the comment "update stream".
  unfoldable pub accept : VeilidStream X → Bytes → VeilidStream X × ℕ
  unfolding recv_inbound_buffer drain_queue get_inbound_received_seq
  accept s bytes =
      drain_queue (length s.inbound_message_queue) (recv_inbound_buffer s bytes)
        (u32 (get_inbound_received_seq s + 1))

  unfoldable pub publish : ℕ → VeilidStream X × ℕ → ℕ → VeilidStream X × List (Effect X)
  unfolding update_inbound_received_seq update_outbound_delivered_seq
      remove_sent_messages_from_queue update_inbound_stream update_inbound_last_timestamp_to_now
  publish now r delivered_seq =
      let (t, woken) = update_inbound_stream (
        remove_sent_messages_from_queue
          (update_outbound_delivered_seq (update_inbound_received_seq r.0 r.1) delivered_seq)) in
      (update_inbound_last_timestamp_to_now now t, woken)

  unfoldable pub recv_message :
      ℕ → VeilidStream X → (delivered_seq seq : ℕ) → Bytes → VeilidStream X × List (Effect X)
  unfolding get_inbound_received_seq insert is_active accept publish
  recv_message now s delivered_seq seq bytes =
      let received = get_inbound_received_seq s in
      if leb seq received
      then (s, [])
      else if ltb (u32 (received + 1)) seq
      then (if ltb seq (u32 (received + 20))
          then (
            record s {
              inbound_message_queue = insert ℕ_discrete seq bytes s.inbound_message_queue;
            },
            [],
          )
          else (s, []))
      else if is_active now s
      then publish now (accept s bytes) delivered_seq
      else (s, [])

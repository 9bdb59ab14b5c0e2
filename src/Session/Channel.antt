-- ===== src/Session/Channel.antt =====
-- What a connection promises, and that the streams keep it while no message ends inside a slice's
-- header: a first-in first-out queue of bytes.
use mathlib.Core.List.{append_cancel_left}
use libp2p_transport_veilid.Prelude.{
  ◌≡◌, sym, ap, ◌∙◌, subst, List, [], ◌∷◌, ◌++◌, flatten, append_assoc, append-nil, flatten-append,
}
use libp2p_transport_veilid.External.{External, Bytes}
use libp2p_transport_veilid.Stream.Inbound.{read_inbound_stream}
use libp2p_transport_veilid.Stream.Inbound.Delivery.{HeadersWhole}
use libp2p_transport_veilid.Session.{
  Session, Step, write, generate, send, acknowledge, deliver, read, hear, consume, talk, set_sender,
  set_receiver, Reach, here, next, IsFresh, bytes_read,
}
use libp2p_transport_veilid.Session.Receiver.{HeadersWhole-front}
use libp2p_transport_veilid.Session.Invariant.{Step-log}
use libp2p_transport_veilid.Session.Delivered.{delivered_prefix}

-- What the two users of a connection see.
pub data Event : Type 0 where
  wrote : Bytes → Event
  got : Bytes → Event

module _ {X : External} where
  -- A write of one side, a read of the other; the rest is not seen.
  pub seen : {σ τ : Session X} → List Event → Step σ τ → List Event
  seen {σ} events (write now bytes small) = events ++ wrote bytes ∷ []
  seen {σ} events (read buf) =
      events ++ got (bytes_read X (read_inbound_stream σ.receiver buf)) ∷ []
  seen {σ} events (generate room) = events
  seen {σ} events (send r now) = events
  seen {σ} events (acknowledge delivered_seq) = events
  seen {σ} events (deliver now delivered_seq seq bytes p) = events
  seen {σ} events (hear now delivered_seq seq bytes) = events
  seen {σ} events (consume buf) = events
  seen {σ} events (talk said) = events
  seen {σ} events (set_sender st) = events
  seen {σ} events (set_receiver st) = events

  -- The events of a session, in their order.
  pub trace : {σ τ : Session X} → Reach σ τ → List Event
  trace here = []
  trace (next reach step) = seen (trace reach) step

-- The events of a queue of bytes that is empty at first, and what it holds after them: a write puts
-- its bytes at the end, and a read takes its bytes from the front.
pub data Serves : List Event → Bytes → Type 0 where
  nothing : Serves [] []
  put :
      {events : List Event} {queue : Bytes} (bytes : Bytes)
      → Serves events queue
      → Serves (events ++ wrote bytes ∷ []) (queue ++ bytes)
  taken :
      {events : List Event} {queue : Bytes} (bytes : Bytes)
      → Serves events (bytes ++ queue)
      → Serves (events ++ got bytes ∷ []) queue

module _ {X : External} where
  -- The queue holds what was written and not yet read; what can be read is its front.
  abbrev pub Holds : List Event → Session X → Type 0
  Holds events τ = (queue : Bytes) × Serves events queue × (τ.output ++ queue ≡ flatten τ.writes)

module _ {X : External} {σ : Session X} (fresh : IsFresh σ) where
  Step-Holds :
      {τ υ : Session X} (events : List Event) (step : Step τ υ)
      → Reach σ υ
      → HeadersWhole υ.log
      → Holds events τ
      → Holds (seen events step) υ
  unfolding seen flatten
  Step-Holds {τ} events (write now bytes small) reach headers (queue, serves, all) = (
    queue ++ bytes,
    put bytes serves,
    sym (append_assoc τ.output queue bytes)
        ∙ ap (λ t. t ++ bytes) all
        ∙ ap (λ t. flatten τ.writes ++ t) (sym (append-nil bytes))
        ∙ sym (flatten-append τ.writes (bytes ∷ [])),
  )
  Step-Holds {τ} {υ} events (read buf) reach headers (queue, serves, all) =
      let bytes = bytes_read X (read_inbound_stream τ.receiver buf) in
      let (more, prefix) = delivered_prefix fresh reach headers in
      let left = υ.receiver.inbound_stream ++ more in
      let rest : υ.output ++ left ≡ flatten τ.writes =
        sym (append_assoc υ.output υ.receiver.inbound_stream more) ∙ prefix in
      let front : queue ≡ bytes ++ left =
        append_cancel_left τ.output queue (bytes ++ left)
          (all ∙ sym rest ∙ append_assoc τ.output bytes left) in
      (left, taken bytes (subst (Serves events) front serves), rest)
  Step-Holds events (generate room) reach headers holds = holds
  Step-Holds events (send r now) reach headers holds = holds
  Step-Holds events (acknowledge delivered_seq) reach headers holds = holds
  Step-Holds events (deliver now delivered_seq seq bytes p) reach headers holds = holds
  Step-Holds events (hear now delivered_seq seq bytes) reach headers holds = holds
  Step-Holds events (consume buf) reach headers holds = holds
  Step-Holds events (talk said) reach headers holds = holds
  Step-Holds events (set_sender st) reach headers holds = holds
  Step-Holds events (set_receiver st) reach headers holds = holds

  Reach-Holds : {τ : Session X} (reach : Reach σ τ) → HeadersWhole τ.log → Holds (trace reach) τ
  unfolding trace flatten
  Reach-Holds here headers =
      ([], nothing, ap (λ t. t ++ []) fresh.no_output ∙ ap flatten (sym fresh.no_writes))
  Reach-Holds (next {τ = υ} reach step) headers =
      let (new, grown) = Step-log step in
      Step-Holds (trace reach) step (next reach step) headers
        (Reach-Holds reach (HeadersWhole-front υ.log new (subst HeadersWhole grown headers)))

  -- A session of two new streams in which no message ends inside a slice's header refines a queue
  -- of bytes, event by event: its writes and reads, in the order in which they happen, are writes
  -- and reads of a queue that is empty at first, so every read takes the oldest bytes that are
  -- written and not yet read. What can be read at the end is the front of what the queue holds.
  pub Reach-Serves :
      {τ : Session X} (reach : Reach σ τ)
      → HeadersWhole τ.log
      → (more : Bytes) × Serves (trace reach) (τ.receiver.inbound_stream ++ more)
  Reach-Serves {τ} reach headers =
      let (queue, serves, all) = Reach-Holds reach headers in
      let (more, prefix) = delivered_prefix fresh reach headers in
      let front : queue ≡ τ.receiver.inbound_stream ++ more =
        append_cancel_left τ.output queue (τ.receiver.inbound_stream ++ more)
          (all ∙ sym prefix ∙ append_assoc τ.output τ.receiver.inbound_stream more) in
      (more, subst (Serves (trace reach)) front serves)

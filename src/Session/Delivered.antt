-- ===== src/Session/Delivered.antt =====
-- While no message ends inside a slice's header, the reader gets what the writer wrote: nothing
-- else, in order, once, and all of it when every message has arrived.
use libp2p_transport_veilid.Prelude.{
  ◌≡◌, sym, ap, subst, ◌∙◌, List, [], ◌++◌, flatten, append-nil, length, take, flatten-append,
  take-append,
}
use mathlib.Core.List.{append_cancel_left}
use libp2p_transport_veilid.External.{External, Bytes}
use libp2p_transport_veilid.Stream.Frames.{frames, Fits, IsIncomplete, frames-append}
use libp2p_transport_veilid.Stream.Inbound.Slices.{IsIncomplete-frames}
use libp2p_transport_veilid.Stream.Inbound.Delivery.{HeadersWhole, Fits-append}
use libp2p_transport_veilid.Session.{Session, Reach, IsFresh}
use libp2p_transport_veilid.Session.Invariant.{Reach-Inv}

take-length {ℓ} : {A : Type ℓ} (xs : List A) → take (length xs) xs ≡ xs
take-length xs = ap (take (length xs)) (sym (append-nil xs)) ∙ take-append xs []

module _ {X : External} {σ τ : Session X} (fresh : IsFresh σ) (reach : Reach σ τ)
    (headers : HeadersWhole τ.log) where
  -- At every point of every session of two new streams, the bytes read and the bytes that can be
  -- read are a prefix of the bytes written, whatever the network loses, repeats or reorders,
  -- provided that no message ends inside a slice's header.
  pub delivered_prefix :
      (more : Bytes) × ((τ.output ++ τ.receiver.inbound_stream) ++ more ≡ flatten τ.writes)
  delivered_prefix =
      let v = (Reach-Inv fresh reach headers).receives in
      (
        flatten v.more,
        ap (λ t. t ++ flatten v.more) v.readable
            ∙ sym (flatten-append v.whole v.more)
            ∙ ap flatten v.joined,
      )

  -- In a session of two new streams in which no message ends inside a slice's header, once every
  -- byte written is in a message and the receiver's cursor is at the last message, the bytes read
  -- and the bytes that can be read are all the bytes written.
  pub delivered_all :
      τ.sender.outbound_stream ≡ []
      → τ.receiver.inbound_received_seq ≡ length τ.log
      → τ.output ++ τ.receiver.inbound_stream ≡ flatten τ.writes
  delivered_all cut arrived =
      let i = Reach-Inv fresh reach headers in
      let v = i.receives in
      let buffer : τ.receiver.inbound_buffer ≡ frames v.more =
        append_cancel_left (frames v.whole) τ.receiver.inbound_buffer (frames v.more) (
          v.received
          ∙ ap (λ n. flatten (take n τ.log)) arrived
          ∙ ap flatten (take-length τ.log)
          ∙ sym (append-nil (flatten τ.log))
          ∙ ap (λ t. flatten τ.log ++ t) (sym cut)
          ∙ i.framed
          ∙ ap frames (sym v.joined)
          ∙ frames-append v.whole v.more) in
      let none_left : v.more ≡ [] =
        IsIncomplete-frames v.more (Fits-append v.whole v.more (subst Fits (sym v.joined) i.fits)).1
          (subst IsIncomplete buffer v.incomplete) in
      v.readable
      ∙ ap flatten (sym (append-nil v.whole) ∙ ap (λ l. v.whole ++ l) (sym none_left) ∙ v.joined)

-- ===== src/Session/Receiver.antt =====
-- What a growing log and a read keep of the receiving side.
use libp2p_transport_veilid.Prelude.{
  ℕ, ◌≤◌, min, ◌≡◌, sym, ap, ◌∙◌, inl, inr, List, ◌++◌, flatten, append_assoc, append-nil, length,
  take, drop, is_empty, arith, Bool-cases, length-append, length-take, take-append,
  take-append-drop, take-append_le,
}
use libp2p_transport_veilid.External.{External, Bytes}
use libp2p_transport_veilid.Stream.{VeilidStream}
use libp2p_transport_veilid.Stream.Inbound.{read_inbound_stream}
use libp2p_transport_veilid.Stream.Inbound.Queue.{packet-append}
use libp2p_transport_veilid.Stream.Inbound.Delivery.{HeadersWhole, Receives}
use libp2p_transport_veilid.Session.{bytes_read}

-- A copy to the front of a buffer is found there.
take-take_append : (n : ℕ) (xs ys : Bytes) → n ≤ length xs → take n (take n xs ++ ys) ≡ take n xs
take-take_append n xs ys h =
    let size : n ≡ length (take n xs) = omega (arith, length-take n xs) in
    ap (λ k. take k (take n xs ++ ys)) size ∙ take-append (take n xs) ys

-- A log whose messages end in no header has none that does at its front.
pub HeadersWhole-front : (log new : List Bytes) → HeadersWhole (log ++ new) → HeadersWhole log
HeadersWhole-front log new h n whole rest le e fits inc =
    h n whole rest (omega (arith, le, length-append log new))
      (ap flatten (take-append_le log new n le) ∙ e) fits inc

module _ {X : External} (log writes : List Bytes) (output : Bytes) (s : VeilidStream X)
    (v : Receives log writes output s) where
  -- More messages and more writes leave what was received as it is.
  pub Receives-grow :
      (new written : List Bytes) → Receives (log ++ new) (writes ++ written) output s
  Receives-grow new written = record {
    whole = v.whole;
    more = v.more ++ written;
    within = omega (arith, v.within, length-append log new);
    stored = λ k bytes h. packet-append log new k (v.stored k bytes h);
    joined = sym (append_assoc v.whole v.more written) ∙ ap (λ l. l ++ written) v.joined;
    received =
        v.received ∙ ap flatten (sym (take-append_le log new s.inbound_received_seq v.within));
    readable = v.readable;
    incomplete = v.incomplete;
  }

  -- A read moves bytes from the stream to the output.
  pub read-Receives :
      (buf : Bytes)
      → Receives log writes
          (output ++ bytes_read X (read_inbound_stream s buf))
          (read_inbound_stream s buf).0
  unfolding read_inbound_stream
  read-Receives buf =
      let stream = s.inbound_stream in
      let readable = min (length buf) (length stream) in
      elim (Bool-cases (is_empty stream)) [
        | inl none_left ↦ rw (none_left, append-nil output) v
        | inr some_left ↦ rw some_left (record {
          whole = v.whole;
          more = v.more;
          within = v.within;
          stored = v.stored;
          joined = v.joined;
          received = v.received;
          readable = rw (take-take_append readable stream (drop readable buf) (omega arith)) (
              append_assoc output (take readable stream) (drop readable stream)
              ∙ ap (λ t. output ++ t) (take-append-drop readable stream)
              ∙ v.readable);
          incomplete = v.incomplete;
        })
      ]

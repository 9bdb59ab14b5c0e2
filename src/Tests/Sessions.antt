-- ===== src/Tests/Sessions.antt =====
-- A session in which one write of two bytes reaches the reader.
use libp2p_transport_veilid.Prelude.{
  ℕ, ◌<◌, ◌≤◌, some, zero, suc, ◌≡◌, refl, sym, ap, ◌∙◌, true, false, List, [], ◌∷◌, ◌++◌, flatten,
  length, arith,
}
use libp2p_transport_veilid.External.{Bytes}
use libp2p_transport_veilid.Stream.{new, is_active}
use libp2p_transport_veilid.Stream.Frames.{frames, Fits, IsIncomplete, is_short_header}
use libp2p_transport_veilid.Stream.Inbound.{collect_slices, recv_message, read_inbound_stream}
use libp2p_transport_veilid.Stream.Inbound.Slices.{collect_slices-frames}
use libp2p_transport_veilid.Stream.Inbound.Delivery.{HeadersWhole}
use libp2p_transport_veilid.Stream.Outbound.{
  insert_to_outbound_stream, generate_messages, send_messages, flush,
}
use libp2p_transport_veilid.Stream.Outbound.Packets.{pieces}
use libp2p_transport_veilid.Session.{
  Session, IsFresh, Reach, here, next, write, generate, deliver, read, bytes_read,
}
use libp2p_transport_veilid.Session.Delivered.{delivered_prefix, delivered_all}
use libp2p_transport_veilid.Session.Sizes.{no_panic}
use libp2p_transport_veilid.Session.Progress.{deliver-advances}
use libp2p_transport_veilid.Stream.Inbound.Queue.{packet}
use libp2p_transport_veilid.Tests.Demo.{demo, routes, stream}

abbrev pub fresh_session : Session demo
fresh_session = record {
  sender = stream true false;
  receiver = stream false true;
  writes = [];
  log = [];
  output = [];
}

pub fresh_session-IsFresh : IsFresh fresh_session
unfolding new
fresh_session-IsFresh = record {
  no_writes = refl;
  no_log = refl;
  no_output = refl;
  sender_seq = refl;
  sender_queue = refl;
  sender_stream = refl;
  receiver_seq = refl;
  receiver_queue = refl;
  receiver_buffer = refl;
  receiver_stream = refl;
}

abbrev pub greeting : Bytes
greeting = b'h' ∷ b'i' ∷ []

abbrev written : Session demo
written = record fresh_session {
  sender = (insert_to_outbound_stream 1 fresh_session.sender greeting).0;
  writes = greeting ∷ [];
}

abbrev generated : Session demo
generated = record written {
  sender = generate_messages written.sender;
  log = [] ++ pieces written.sender.outbound_stream;
}

abbrev pub wire : Bytes
wire = 2 ∷ 0 ∷ 0 ∷ 0 ∷ greeting

abbrev delivered : Session demo
delivered = record generated { receiver = (recv_message 2 generated.receiver 0 1 wire).0 }

abbrev pub done : Session demo
done = record delivered {
  receiver = (read_inbound_stream delivered.receiver (0 ∷ 0 ∷ 0 ∷ [])).0;
  output = [] ++ bytes_read demo (read_inbound_stream delivered.receiver (0 ∷ 0 ∷ 0 ∷ []));
}

pub done-Reach : Reach fresh_session done
unfolding new insert_to_outbound_stream pieces
done-Reach =
    next
      (next (next (next here (write 1 greeting (omega arith))) (generate (omega arith)))
        (deliver 2 0 1 wire refl))
      (read (0 ∷ 0 ∷ 0 ∷ []))

-- The header at the end of a front of a log is the one that the loop stops at.
pub headers_of :
    (whole : List Bytes) (rest text : Bytes)
    → text ≡ frames whole ++ rest
    → Fits whole
    → IsIncomplete rest
    → (collect_slices (length text) text []).returned ≡ is_short_header rest
headers_of whole rest text e fits inc =
    ap (λ c. c.returned)
      (ap (λ t. collect_slices (length text) t []) e
        ∙ collect_slices-frames (length text) whole rest [] fits inc (omega (arith, ap length e)))

pub done-HeadersWhole : HeadersWhole done.log
unfolding new insert_to_outbound_stream pieces collect_slices flatten
done-HeadersWhole zero whole rest le e fits inc = sym (headers_of whole rest [] e fits inc)
done-HeadersWhole (suc zero) whole rest le e fits inc = sym (headers_of whole rest wire e fits inc)
done-HeadersWhole (suc (suc n)) whole rest le e fits inc = absurd (omega (arith, le))

delivered_prefix_example :
    (more : Bytes) × ((done.output ++ done.receiver.inbound_stream) ++ more
      ≡ flatten (greeting ∷ []))
delivered_prefix_example = delivered_prefix fresh_session-IsFresh done-Reach done-HeadersWhole

delivered_all_example : done.output ++ done.receiver.inbound_stream ≡ flatten (greeting ∷ [])
unfolding new insert_to_outbound_stream pieces generate_messages recv_message read_inbound_stream
    collect_slices flatten
delivered_all_example = delivered_all fresh_session-IsFresh done-Reach done-HeadersWhole refl refl

no_panic_example :
    ((send_messages routes 3 done.sender).2 ≡ false) × ((flush routes 3 done.sender).2 ≡ false)
no_panic_example = no_panic routes 3 fresh_session-IsFresh done-Reach

-- The message is generated and has not arrived.
generated-Reach : Reach fresh_session generated
unfolding new insert_to_outbound_stream pieces
generated-Reach = next (next here (write 1 greeting (omega arith))) (generate (omega arith))

deliver-advances_example :
    (seq : ℕ) × (bytes : Bytes) × (packet generated.log seq ≡ some bytes)
    × (generated.receiver.inbound_received_seq
        < (recv_message 2 generated.receiver 0 seq bytes).0.inbound_received_seq)
    × ((recv_message 2 generated.receiver 0 seq bytes).0.inbound_received_seq
        ≤ length generated.log)
unfolding new insert_to_outbound_stream pieces is_active
deliver-advances_example =
    deliver-advances 2 0 fresh_session-IsFresh generated-Reach done-HeadersWhole refl (omega arith)

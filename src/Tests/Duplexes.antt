-- ===== src/Tests/Duplexes.antt =====
-- A connection on which one side writes two bytes, and a session as a queue of bytes.
use libp2p_transport_veilid.Prelude.{
  zero, suc, refl, sym, true, false, [], ◌∷◌, ◌++◌, flatten, arith,
}
use libp2p_transport_veilid.External.{Bytes}
use libp2p_transport_veilid.Stream.{VeilidStream, new}
use libp2p_transport_veilid.Stream.Inbound.{collect_slices, recv_message, read_inbound_stream}
use libp2p_transport_veilid.Stream.Inbound.Delivery.{HeadersWhole}
use libp2p_transport_veilid.Stream.Outbound.{insert_to_outbound_stream, generate_messages}
use libp2p_transport_veilid.Stream.Outbound.Packets.{pieces}
use libp2p_transport_veilid.Session.{IsFresh, bytes_read}
use libp2p_transport_veilid.Session.Channel.{Serves, trace, Reach-Serves}
use libp2p_transport_veilid.Duplex.{
  Endpoint, Run, here, left, right, write, generate, receive, read, direction,
}
use libp2p_transport_veilid.Duplex.Delivered.{Delivers, duplex-Delivers}
use libp2p_transport_veilid.Tests.Demo.{demo, stream}
use libp2p_transport_veilid.Tests.Sessions.{
  fresh_session-IsFresh, done, done-Reach, done-HeadersWhole, greeting, wire, headers_of,
}

Reach-Serves_example :
    (more : Bytes) × Serves (trace done-Reach) (done.receiver.inbound_stream ++ more)
Reach-Serves_example = Reach-Serves fresh_session-IsFresh done-Reach done-HeadersWhole

abbrev side : VeilidStream demo → Endpoint demo
side s = record { stream = s; writes = []; log = []; output = [] }

abbrev writer : Endpoint demo
writer = side (stream true false)

abbrev reader : Endpoint demo
reader = side (stream false true)

back-IsFresh : IsFresh (direction reader writer)
unfolding new
back-IsFresh = record {
  no_writes = refl;
  no_log = refl;
  no_output = refl;
  sender_seq = refl;
  sender_queue = refl;
  sender_stream = refl;
  receiver_seq = refl;
  receiver_queue = refl;
  receiver_buffer = refl;
  receiver_stream = refl;
}

abbrev wrote : Endpoint demo
wrote = record writer {
  stream = (insert_to_outbound_stream 1 writer.stream greeting).0;
  writes = greeting ∷ [];
}

abbrev sent : Endpoint demo
sent = record wrote {
  stream = generate_messages wrote.stream;
  log = [] ++ pieces wrote.stream.outbound_stream;
}

abbrev received : Endpoint demo
received = record reader { stream = (recv_message 2 reader.stream 0 1 wire).0 }

abbrev finished : Endpoint demo
finished = record received {
  stream = (read_inbound_stream received.stream (0 ∷ 0 ∷ 0 ∷ [])).0;
  output = [] ++ bytes_read demo (read_inbound_stream received.stream (0 ∷ 0 ∷ 0 ∷ []));
}

finished-Run : Run writer reader sent finished
unfolding new insert_to_outbound_stream pieces
finished-Run =
    right
      (right (left (left here (write 1 greeting (omega arith))) (generate (omega arith)))
        (receive 2 0 1 wire refl))
      (read (0 ∷ 0 ∷ 0 ∷ []))

silent-HeadersWhole : HeadersWhole []
unfolding flatten collect_slices
silent-HeadersWhole zero whole rest le e fits inc = sym (headers_of whole rest [] e fits inc)
silent-HeadersWhole (suc n) whole rest le e fits inc = absurd (omega (arith, le))

duplex-Delivers_example : Delivers sent finished × Delivers finished sent
duplex-Delivers_example =
    duplex-Delivers (fresh_session-IsFresh, back-IsFresh) finished-Run done-HeadersWhole
      silent-HeadersWhole

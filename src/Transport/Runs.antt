-- ===== src/Transport/Runs.antt =====
-- A transport over its life: `listen_on` and `poll` of src/lib.rs in any order.
use libp2p_transport_veilid.Prelude.{
  ℕ, ◌+◌, ◌≤◌, ◌≡◌, refl, sym, ap, ◌∙◌, Bool, true, inl, inr, Bool-cases, Option, none, some, List,
  [], ◌∷◌, ◌++◌, arith,
}
use libp2p_transport_veilid.External.{External}
use libp2p_transport_veilid.Connection.{Poll, pending, ready}
use libp2p_transport_veilid.Stream.Outbound.{Routing}
use libp2p_transport_veilid.Listener.{Clock, TransportEvent, TransportType}
use libp2p_transport_veilid.Listener.Events.{Pump, get_next_event}
use libp2p_transport_veilid.Transport
use libp2p_transport_veilid.Transport.{VeilidTransport, heartbeat}
use libp2p_transport_veilid.Transport.Listen.{
  Startup, Listening, listening, refused, panicked, listen_on, started,
}
use libp2p_transport_veilid.Transport.Loop.{
  poll, poll_event, poll_after, poll_listener, heartbeats, popped, pop_event,
}

-- A new transport, with the answers of its `listen_on` so far. The listener also changes by itself:
-- tasks run, updates arrive, and the future of a dial inserts its stream.
pub data Run {X : External} : List Listening → VeilidTransport X → Type 0 where
  made :
      (handle : Bool) (key : X.Keypair) (transport_type : TransportType)
      → Run [] (Transport.new X handle key transport_type)
  listened :
      {answers : List Listening} {t : VeilidTransport X} (id : ℕ) (startup : Startup)
      → Run answers t
      → Run (answers ++ (listen_on t id startup).1 ∷ []) (listen_on t id startup).0
  polled :
      {answers : List Listening} {t : VeilidTransport X} (r : Routing) (ticks : List Clock)
      → Run answers t
      → Run answers (poll r ticks t).transport
  worked :
      {answers : List Listening} {t : VeilidTransport X} (p q : Pump X)
      → t.listener ≡ some p
      → Run answers t
      → Run answers (record t { listener = some q })

abbrev pub is_made : Listening → ℕ
is_made listening = 1
is_made (refused e) = 0
is_made panicked = 0

-- How many calls made a listener.
unfoldable pub listeners_made : List Listening → ℕ
listeners_made [] = 0
listeners_made (answer ∷ answers) = is_made answer + listeners_made answers

listeners_made-append :
    (answers : List Listening) (answer : Listening)
    → listeners_made (answers ++ answer ∷ []) ≡ listeners_made answers + is_made answer
unfolding listeners_made
listeners_made-append [] answer = omega arith
listeners_made-append (a ∷ answers) answer = omega (arith, listeners_made-append answers answer)

module _ {X : External} where
  abbrev pub listener_count : Option (Pump X) → ℕ
  listener_count none = 0
  listener_count (some p) = 1

  -- The parts of a transport that decide whether a listener can be made.
  abbrev Same : VeilidTransport X → VeilidTransport X → Type 0
  Same t u =
      (u.update_receiver ≡ t.update_receiver)
      × (u.api ≡ t.api)
      × (listener_count u.listener ≡ listener_count t.listener)

  heartbeats-Same :
      (r : Routing) (ticks : List Clock) (t : VeilidTransport X) (p : Pump X)
      → listener_count t.listener ≡ 1
      → Same t (heartbeats r ticks t p).transport
  unfolding heartbeats
  heartbeats-Same r [] t p e = (refl, refl, sym e)
  heartbeats-Same r (clock ∷ ticks) t p e =
      let b = heartbeat clock r t.api t.transport_type p.listener in
      elim (Bool-cases b.failed) [
        | inl ended ↦ rw (heartbeats, ended) (refl, refl, sym e)
        | inr fine ↦
            rw (heartbeats, fine) (heartbeats-Same r ticks t (record p { listener = b.listener }) e)
      ]

  poll_listener-Same :
      (r : Routing) (ticks : List Clock) (t : VeilidTransport X) (p : Pump X)
      (next : Poll (Option (TransportEvent X)))
      → listener_count t.listener ≡ 1
      → Same t (poll_listener r ticks t p next).transport
  poll_listener-Same r ticks t p (ready (some event)) e = (refl, refl, sym e)
  poll_listener-Same r ticks t p (ready none) e = heartbeats-Same r ticks t p e
  poll_listener-Same r ticks t p pending e = heartbeats-Same r ticks t p e

  poll_after-Same :
      (r : Routing) (ticks : List Clock) (t : VeilidTransport X) (o : Option (Pump X))
      → t.listener ≡ o
      → Same t (poll_after r ticks t o).transport
  poll_after-Same r ticks t none e = (refl, refl, refl)
  poll_after-Same r ticks t (some p) e =
      poll_listener-Same r ticks t (get_next_event p).0 (get_next_event p).1 (ap listener_count e)

  popped-Same :
      (r : Routing) (ticks : List Clock) (t : VeilidTransport X) (events : List (TransportEvent X))
      → Same t (poll_event r ticks (popped t events).0 (popped t events).1).transport
  popped-Same r ticks t [] = poll_after-Same r ticks t t.listener refl
  popped-Same r ticks t (event ∷ rest) = (refl, refl, refl)

  -- The receiver of updates is taken by the call that makes the listener.
  listen_on-receiver :
      (t : VeilidTransport X) (id : ℕ) (startup : Startup)
      → (t.update_receiver ≡ true → listener_count t.listener ≡ 0)
      → let (u, answer) = listen_on t id startup in
        (listener_count u.listener ≡ listener_count t.listener + is_made answer)
        × (u.update_receiver ≡ true → listener_count u.listener ≡ 0)
  unfolding listen_on started
  listen_on-receiver t id none none_yet = ground arith
  listen_on-receiver t id (some err) none_yet = ground arith

  listener_count_le : (o : Option (Pump X)) → listener_count o ≤ 1
  listener_count_le none = omega arith
  listener_count_le (some p) = omega arith

  Run-receiver :
      {answers : List Listening} {t : VeilidTransport X}
      → Run answers t
      → (listeners_made answers ≡ listener_count t.listener)
        × (t.update_receiver ≡ true → listener_count t.listener ≡ 0)
  unfolding listeners_made Transport.new poll pop_event
  Run-receiver (made handle key transport_type) = (refl, λ e. refl)
  Run-receiver (listened {answers = before} {t = u} id startup run) =
      let (same, none_yet) = Run-receiver run in
      let (more, taken) = listen_on-receiver u id startup none_yet in
      (
        listeners_made-append before (listen_on u id startup).1
            ∙ ap (λ n. n + is_made (listen_on u id startup).1) same
            ∙ sym more,
        taken,
      )
  Run-receiver (polled {t = u} r ticks run) =
      let (same, none_yet) = Run-receiver run in
      let (receiver, api, count) = popped-Same r ticks u u.events in
      (same ∙ sym count, λ e. count ∙ none_yet (sym receiver ∙ e))
  Run-receiver (worked p q e run) =
      let (same, none_yet) = Run-receiver run in
      (same ∙ ap listener_count e, λ taken. sym (ap listener_count e) ∙ none_yet taken)

  -- Over any life of a transport, at most one of the calls of `listen_on` makes a listener, and the
  -- transport has a listener exactly from that call on.
  pub Run-listeners_made :
      {answers : List Listening} {t : VeilidTransport X}
      → Run answers t
      → (listeners_made answers ≤ 1) × (listeners_made answers ≡ listener_count t.listener)
  Run-listeners_made run =
      let (same, none_yet) = Run-receiver run in (omega (arith, same, listener_count_le _), same)

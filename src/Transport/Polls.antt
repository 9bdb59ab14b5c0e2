-- ===== src/Transport/Polls.antt =====
-- When the heartbeat runs, as src/lib.rs: `poll` decides it.
use libp2p_transport_veilid.Prelude.{
  ◌≡◌, refl, sym, ap, ◌∙◌, subst, Option, none, some, List, [], ◌∷◌, arith,
}
use libp2p_transport_veilid.Prelude.Map.{lookup}
use libp2p_transport_veilid.External.{External}
use libp2p_transport_veilid.Address.{Address, Address-discrete}
use libp2p_transport_veilid.Connection.{Poll, pending, ready}
use libp2p_transport_veilid.Stream.Outbound.{Routing}
use libp2p_transport_veilid.Listener.{Clock, TransportEvent}
use libp2p_transport_veilid.Listener.Events.{Pump, get_next_event}
use libp2p_transport_veilid.Transport.{VeilidTransport}
use libp2p_transport_veilid.Transport.Dial.{stream_of}
use libp2p_transport_veilid.Transport.Heartbeat.{IsKeyed, HaveRoom, after_beat, heartbeat-streams}
use libp2p_transport_veilid.Transport.Loop.{
  Polled, poll, poll_event, poll_after, poll_listener, heartbeats, pop_event, popped,
}

module _ {X : External} where
  -- A listener's poll leaves its streams.
  get_next_event-streams : (p : Pump X) → (get_next_event p).0.listener ≡ p.listener
  unfolding get_next_event
  get_next_event-streams p = ground arith

  -- The streams are keyed, and their messages fit the network's limit, if there is a listener.
  abbrev pub HasKeys : Option (Pump X) → Type 0
  HasKeys none = Unit
  HasKeys (some p) = IsKeyed p.listener.streams × HaveRoom p.listener.streams

module _ {X : External} (r : Routing) (clock : Clock) (t : VeilidTransport X) where
  abbrev pub Answers : Address X → Polled X → Type 0
  Answers a u =
      (u.answer ≡ pending → stream_of u.transport a ≡ after_beat r clock.instant (stream_of t a))
      × ((event : TransportEvent X)
          → u.answer ≡ ready event
          → (stream_of u.transport a ≡ stream_of t a) × (u.effects ≡ []) × (u.spawned ≡ []))

  stream_of-some :
      (a : Address X) (p : Pump X)
      → t.listener ≡ some p
      → stream_of t a ≡ lookup (Address-discrete X) a p.listener.streams
  stream_of-some a p e = rw e refl

  pending_not_ready : {A : Type 0} (x : A) → ¬ (pending ≡ ready x)
  pending_not_ready x e = cc

  -- One heartbeat.
  beaten_once :
      (a : Address X) (q : Pump X)
      → IsKeyed q.listener.streams × HaveRoom q.listener.streams
      → ((heartbeats r (clock ∷ []) t q).answer ≡ pending)
        × (stream_of (heartbeats r (clock ∷ []) t q).transport a
            ≡ after_beat r clock.instant (lookup (Address-discrete X) a q.listener.streams))
  unfolding heartbeats
  beaten_once a q (keyed, room) =
      let (fine, streams) =
        heartbeat-streams clock r t.api t.transport_type q.listener a keyed room in
      rw (heartbeats, fine) (refl, streams)

  -- A poll that comes to the heartbeat.
  poll_beaten :
      (a : Address X) (p q : Pump X)
      → t.listener ≡ some p
      → q.listener ≡ p.listener
      → IsKeyed p.listener.streams × HaveRoom p.listener.streams
      → Answers a (heartbeats r (clock ∷ []) t q)
  unfolding heartbeats
  poll_beaten a p q e same keyed = (
    λ yes.
        (beaten_once a q (subst (λ l. IsKeyed l.streams × HaveRoom l.streams) (sym same) keyed)).1
        ∙ ap (λ l. after_beat r clock.instant (lookup (Address-discrete X) a l.streams)) same
        ∙ ap (after_beat r clock.instant) (sym (stream_of-some a p e)),
    λ event no. absurd (
        pending_not_ready event (
          sym
            (beaten_once a q
              (subst (λ l. IsKeyed l.streams × HaveRoom l.streams) (sym same) keyed)).0
          ∙ no)),
  )

  poll_listener-Answers :
      (a : Address X) (p q : Pump X) (next : Poll (Option (TransportEvent X)))
      → t.listener ≡ some p
      → q.listener ≡ p.listener
      → IsKeyed p.listener.streams × HaveRoom p.listener.streams
      → Answers a (poll_listener r (clock ∷ []) t q next)
  unfolding heartbeats
  poll_listener-Answers a p q (ready (some event)) e same keyed = (
    λ no. cc,
    λ event' yes. (
      ap (λ l. lookup (Address-discrete X) a l.streams) same ∙ sym (stream_of-some a p e),
      refl,
      refl,
    ),
  )
  poll_listener-Answers a p q (ready none) e same keyed = poll_beaten a p q e same keyed
  poll_listener-Answers a p q pending e same keyed = poll_beaten a p q e same keyed

  poll_after-Answers :
      (a : Address X) (o : Option (Pump X))
      → t.listener ≡ o
      → HasKeys o
      → Answers a (poll_after r (clock ∷ []) t o)
  poll_after-Answers a none e keyed = (λ yes. rw e refl, λ event no. cc)
  poll_after-Answers a (some p) e keyed =
      poll_listener-Answers a p (get_next_event p).0 (get_next_event p).1 e
        (get_next_event-streams p) keyed

  popped-Answers :
      (a : Address X) (events : List (TransportEvent X))
      → HasKeys t.listener
      → Answers a (poll_event r (clock ∷ []) (popped t events).0 (popped t events).1)
  popped-Answers a [] keyed = poll_after-Answers a t.listener refl keyed
  popped-Answers a (event ∷ rest) keyed = (λ no. cc, λ event' yes. (refl, refl, refl))

  -- While one tick of the heartbeat is due, the listener's streams each stand once under their
  -- remote address, and every message that waits in them fits the network's limit: a poll that
  -- answers `pending` has removed exactly the streams that are expired and given every other one
  -- its beat, and a poll that hands on an event leaves the streams as they are, sends nothing and
  -- starts none of the heartbeat's tasks.
  pub poll-streams : (a : Address X) → HasKeys t.listener → Answers a (poll r (clock ∷ []) t)
  unfolding poll pop_event
  poll-streams a keyed = popped-Answers a t.events keyed

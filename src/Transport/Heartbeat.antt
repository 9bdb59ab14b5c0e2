-- ===== src/Transport/Heartbeat.antt =====
-- Which streams a heartbeat keeps.
use mathlib.Core.Option
use libp2p_transport_veilid.Prelude.{
  ◌&&◌, ℕ, ◌≡◌, refl, sym, ◌∙◌, inl, inr, Bool, true, false, Option, none, some, List, [], ◌∷◌, All,
  arith, ite, if◌then◌else◌, if_neg, subst, Bool-cases, Option-cases,
}
use libp2p_transport_veilid.Prelude.Map.{Map, lookup, remove, lookup-remove}
use libp2p_transport_veilid.External.{External}
use libp2p_transport_veilid.Address.{Address, Address-discrete}
use libp2p_transport_veilid.Stream.{VeilidStream, is_active, is_expired}
use libp2p_transport_veilid.Stream.Status.{is_expired_iff}
use libp2p_transport_veilid.Stream.Outbound.{Routing, generate_messages, flush}
use libp2p_transport_veilid.Stream.Outbound.Retry.{InLimit}
use libp2p_transport_veilid.Session.Sizes.{generate_messages-InLimit, fits-send}
use libp2p_transport_veilid.Listener.{VeilidListener, Clock, TransportType}
use libp2p_transport_veilid.Listener.Upkeep.{should_update_target, update_target}
use libp2p_transport_veilid.Transport.{heartbeat, beaten}
use libp2p_transport_veilid.Transport.Streams.{
  beat, beat_streams, to_delete, delete_streams, heartbeat_streams,
}

-- A hash map of streams: each key once, and it is the stream's remote address.
abbrev pub IsKeyed : {X : External} → Map (Address X) (VeilidStream X) → Type 0
IsKeyed {X} streams =
    All (λ e. (e.1.remote_address ≡ e.0) × (lookup (Address-discrete X) e.0 streams ≡ some e.1))
      streams

module _ {X : External} where
  abbrev has : Address X → List (Address X) → Bool
  has k [] = false
  has k (a ∷ addresses) = ite (Address-discrete X a k) true (has k addresses)

  lookup-delete_streams :
      (k : Address X) (addresses : List (Address X)) (streams : Map (Address X) (VeilidStream X))
      → lookup (Address-discrete X) k (delete_streams addresses streams).0
        ≡ (if has k addresses then none else lookup (Address-discrete X) k streams)
  unfolding delete_streams
  lookup-delete_streams k [] streams = refl
  lookup-delete_streams k (a ∷ addresses) streams = ground (
    arith,
    lookup-delete_streams k addresses (remove (Address-discrete X) a streams),
    lookup-remove (Address-discrete X) a k streams,
  )

  -- What waits in a stream fits the network's limit.
  abbrev pub HaveRoom : Map (Address X) (VeilidStream X) → Type 0
  HaveRoom streams = All (λ e. InLimit e.1.outbound_message_queue) streams

  beat_fits :
      (r : Routing) (now : ℕ) (s : VeilidStream X)
      → InLimit s.outbound_message_queue
      → (beat r now s).2 ≡ false
  unfolding beat flush
  beat_fits r now s room =
      let fits = fits-send r now (generate_messages s) (generate_messages-InLimit s room) in
      ground (arith, fits)

  -- Where everything fits, no stream ends the loop.
  beat_streams_fits :
      (r : Routing) (now : ℕ) (streams : Map (Address X) (VeilidStream X))
      → HaveRoom streams
      → (beat_streams r now streams).2 ≡ false
  unfolding beat_streams
  beat_streams_fits r now [] room = refl
  beat_streams_fits r now ((a, s) ∷ streams) room =
      rw (beat_fits r now s room.0) (beat_streams_fits r now streams room.1)

  lookup-beat_streams :
      (r : Routing) (now : ℕ) (k : Address X) (streams : Map (Address X) (VeilidStream X))
      → HaveRoom streams
      → lookup (Address-discrete X) k (beat_streams r now streams).0
        ≡ Option.map (λ s. (beat r now s).0) (lookup (Address-discrete X) k streams)
  unfolding beat_streams lookup
  lookup-beat_streams r now k [] room = refl
  lookup-beat_streams r now k ((a, s) ∷ streams) room =
      rw (beat_fits r now s room.0) (ground (arith, lookup-beat_streams r now k streams room.1))

  -- An expired stream's address is to be deleted.
  expired-has :
      (now : ℕ) (k : Address X) (s : VeilidStream X) (streams : Map (Address X) (VeilidStream X))
      → lookup (Address-discrete X) k streams ≡ some s
      → s.remote_address ≡ k
      → is_expired now s ≡ true
      → has k (to_delete now streams) ≡ true
  unfolding to_delete lookup
  expired-has now k s [] h e late = cc
  expired-has now k s ((a, t) ∷ streams) h e late =
      ground (arith, expired-has now k s streams, (is_expired_iff now s).1)

  -- Nothing else is.
  has-expired :
      (now : ℕ) (k : Address X) (all streams : Map (Address X) (VeilidStream X))
      → All
          (λ e. (e.1.remote_address ≡ e.0) × (lookup (Address-discrete X) e.0 all ≡ some e.1))
          streams
      → has k (to_delete now streams) ≡ true
      → (s : VeilidStream X) × (lookup (Address-discrete X) k all ≡ some s)
        × (is_expired now s ≡ true)
  unfolding to_delete
  has-expired now k all [] h e = cc
  has-expired now k all ((a, t) ∷ streams) h e =
      let later = has-expired now k all streams h.1 in
      elim (Bool-cases (is_active now t)) [
        | inl alive ↦ later (rw (to_delete, alive) at e)
        | inr quiet ↦ elim (Bool-cases (is_expired now t)) [
          | inr young ↦ later (rw (to_delete, quiet, young) at e)
          | inl late ↦
              let e' : has k (t.remote_address ∷ to_delete now streams) ≡ true =
                rw (to_delete, quiet, late) at e in
              elim (Address-discrete X t.remote_address k) [
                | yes same ↦ (
                  t,
                  subst (λ b. lookup (Address-discrete X) b all ≡ some t) (sym h.0.0 ∙ same) h.0.1,
                  late,
                )
                | no differ ↦ later (
                    sym (
                      if_neg (Address-discrete X t.remote_address k) differ true
                        (has k (to_delete now streams)))
                    ∙ e')
              ]
        ]
      ]

  -- A stream that is found stands under its remote address.
  found-remote_address :
      (k : Address X) (s : VeilidStream X) (all streams : Map (Address X) (VeilidStream X))
      → All
          (λ e. (e.1.remote_address ≡ e.0) × (lookup (Address-discrete X) e.0 all ≡ some e.1))
          streams
      → lookup (Address-discrete X) k streams ≡ some s
      → s.remote_address ≡ k
  unfolding lookup
  found-remote_address k s all [] h e = cc
  found-remote_address k s all ((a, t) ∷ streams) h e =
      ground (arith, found-remote_address k s all streams h.1, h.0.0)

  -- The addresses to delete are those of the expired streams.
  has_iff :
      (now : ℕ) (k : Address X) (s : VeilidStream X) (streams : Map (Address X) (VeilidStream X))
      → IsKeyed streams
      → lookup (Address-discrete X) k streams ≡ some s
      → has k (to_delete now streams) ≡ is_expired now s
  has_iff now k s streams keyed e = elim (Bool-cases (is_expired now s)) [
    | inl late ↦
        expired-has now k s streams e (found-remote_address k s streams streams keyed e) late
        ∙ sym late
    | inr young ↦ elim (Bool-cases (has k (to_delete now streams))) [
      | inr kept ↦ kept ∙ sym young
      | inl gone ↦ let (t, there, late) = has-expired now k streams streams keyed gone in cc
    ]
  ]

  abbrev pub kept : Bool → VeilidStream X → Option (VeilidStream X)
  kept true s = none
  kept false s = some s

  -- What the heartbeat leaves of the stream of an address.
  abbrev pub after_beat : Routing → ℕ → Option (VeilidStream X) → Option (VeilidStream X)
  after_beat r now none = none
  after_beat r now (some s) = kept (is_expired now s) (beat r now s).0

  lookup-heartbeat_streams :
      (r : Routing) (now : ℕ) (streams : Map (Address X) (VeilidStream X)) (k : Address X)
      → IsKeyed streams
      → HaveRoom streams
      → lookup (Address-discrete X) k (heartbeat_streams r now streams).0
        ≡ after_beat r now (lookup (Address-discrete X) k streams)
  unfolding heartbeat_streams
  lookup-heartbeat_streams r now streams k keyed room =
      rw (heartbeat_streams, beat_streams_fits r now streams room)
        (lookup-delete_streams k (to_delete now streams) (beat_streams r now streams).0
          ∙ elim (Option-cases (lookup (Address-discrete X) k streams)) [
            | inl absent ↦ ground (arith, lookup-beat_streams r now k streams room)
            | inr (s, e) ↦
                ground
                  (arith, lookup-beat_streams r now k streams room, has_iff now k s streams keyed e)
          ])

  heartbeat_streams_fits :
      (r : Routing) (now : ℕ) (streams : Map (Address X) (VeilidStream X))
      → HaveRoom streams
      → (heartbeat_streams r now streams).2 ≡ false
  unfolding heartbeat_streams
  heartbeat_streams_fits r now streams room =
      rw (heartbeat_streams, beat_streams_fits r now streams room) refl

module _ {X : External} (clock : Clock) (r : Routing) (has_api : Bool) (k : TransportType)
    (l : VeilidListener X) (a : Address X) where
  -- In a map in which every stream stands once, under its remote address, and every message that
  -- waits fits the network's limit: a heartbeat does not panic, removes exactly the streams that
  -- are expired, and leaves every other one with its own beat.
  pub heartbeat-streams :
      IsKeyed l.streams
      → HaveRoom l.streams
      → ((heartbeat clock r has_api k l).failed ≡ false)
        × (lookup (Address-discrete X) a (heartbeat clock r has_api k l).listener.streams
            ≡ after_beat r clock.instant (lookup (Address-discrete X) a l.streams))
  unfolding heartbeat update_target
  heartbeat-streams keyed room =
      let fits = heartbeat_streams_fits r clock.instant l.streams room in
      let streams = lookup-heartbeat_streams r clock.instant l.streams a keyed room in
      elim (Bool-cases (has_api && should_update_target clock.utc (beaten clock r l).0)) [
        | inl due ↦ rw (heartbeat, fits, due) (refl, streams)
        | inr fine ↦ rw (heartbeat, fits, fine) (refl, streams)
      ]

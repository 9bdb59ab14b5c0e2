-- ===== src/Transport/Streams.antt =====
-- src/lib.rs: what `heartbeat` does with the streams of the listener: its two loops over them.
use libp2p_transport_veilid.Prelude.{
  ℕ, Bool, true, false, Option, none, some, List, [], ◌∷◌, ◌++◌, if◌then◌else◌,
}
use libp2p_transport_veilid.Prelude.Map.{Map, lookup, remove}
use libp2p_transport_veilid.External.{External}
use libp2p_transport_veilid.Address.{Address, Address-discrete}
use libp2p_transport_veilid.Stream.{
  VeilidStream, Effect, StreamStatus, dial, listen, active, expired, is_active, is_expired,
  get_status, wake_to_read,
}
use libp2p_transport_veilid.Stream.Outbound.{
  Routing, send_status_if_stale, send_dial, send_listen, flush,
}

module _ {X : External} where
  -- A stream that waits repeats its part of the handshake.
  abbrev pub repeat_handshake : Routing → VeilidStream X → StreamStatus → List (Effect X)
  repeat_handshake r s dial = send_dial r s
  repeat_handshake r s listen = send_listen r s
  repeat_handshake r s active = []
  repeat_handshake r s expired = []

  -- The body of the first loop: the stream, its effects, and whether sending panicked.
  unfoldable pub beat : Routing → ℕ → VeilidStream X → VeilidStream X × List (Effect X) × Bool
  unfolding is_active is_expired get_status send_status_if_stale flush send_dial send_listen
  beat r now s =
      let (t, effects, failed) = flush r now s in
      if is_active now s
      then (t, send_status_if_stale r now s ++ effects, failed)
      else if is_expired now s
      then (s, [], false)
      else (s, repeat_handshake r s (get_status now s), false)

  -- The first loop. A panic of sending ends it, and the heartbeat with it.
  unfoldable pub beat_streams :
      Routing
      → ℕ
      → Map (Address X) (VeilidStream X)
      → Map (Address X) (VeilidStream X) × List (Effect X) × Bool
  unfolding beat
  beat_streams r now [] = ([], [], false)
  beat_streams r now ((a, s) ∷ streams) =
      let (t, effects, failed) = beat r now s in
      let (rest, more, rest_failed) = beat_streams r now streams in
      if failed
      then ((a, t) ∷ streams, effects, true)
      else ((a, t) ∷ rest, effects ++ more, rest_failed)

  -- `to_delete`.
  unfoldable pub to_delete : ℕ → Map (Address X) (VeilidStream X) → List (Address X)
  unfolding is_active is_expired
  to_delete now [] = []
  to_delete now ((a, s) ∷ streams) =
      let rest = to_delete now streams in
      if is_active now s then rest else if is_expired now s then s.remote_address ∷ rest else rest

  abbrev pub wake_found : Option (VeilidStream X) → List (Effect X)
  wake_found none = []
  wake_found (some s) = wake_to_read s

  -- The loop that deletes: a stream that is there is removed and its reader woken.
  unfoldable pub delete_streams :
      List (Address X)
      → Map (Address X) (VeilidStream X)
      → Map (Address X) (VeilidStream X) × List (Effect X)
  unfolding remove lookup wake_to_read
  delete_streams [] streams = (streams, [])
  delete_streams (a ∷ addresses) streams =
      let (rest, woken) = delete_streams addresses (remove (Address-discrete X) a streams) in
      (rest, wake_found (lookup (Address-discrete X) a streams) ++ woken)

  -- Both loops over the streams, on one reading of the clock.
  unfoldable pub heartbeat_streams :
      Routing
      → ℕ
      → Map (Address X) (VeilidStream X)
      → Map (Address X) (VeilidStream X) × List (Effect X) × Bool
  unfolding beat_streams to_delete delete_streams
  heartbeat_streams r now streams =
      let (beaten, effects, failed) = beat_streams r now streams in
      let (rest, woken) = delete_streams (to_delete now streams) beaten in
      if failed then (beaten, effects, true) else (rest, effects ++ woken, false)

-- ===== src/Stream/Status.antt =====
-- The three readings of a stream's status: `is_active`, `is_expired` and `get_status`.
use libp2p_transport_veilid.Prelude.{ℕ, ◌+◌, ◌≤◌, ◌≡◌, ◌≢◌, ◌↔◌, ◌⊎◌, ◌&&◌, true, false, arith}
use libp2p_transport_veilid.External.{External}
use libp2p_transport_veilid.Stream.{
  VeilidStream, active, expired, is_active, is_expired, get_status,
}

module _ {X : External} (now : ℕ) (s : VeilidStream X) where
  pub is_expired_iff :
      ((is_expired now s ≡ true)
        ↔ ((s.status ≢ expired) × (s.inbound_last_timestamp + 20_000_000_000 ≤ now)))
      × ((is_active now s && is_expired now s) ≡ false)
      × ((get_status now s ≡ expired)
          ↔ ((s.status ≡ expired) ⊎ ((s.status ≡ active) × (is_expired now s ≡ true))))
  unfolding is_active is_expired get_status
  is_expired_iff = ground arith

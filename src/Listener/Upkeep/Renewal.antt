-- ===== src/Listener/Upkeep/Renewal.antt =====
-- When a safe listener's private route is renewed.
use mathlib.Core.Bool.{true≢false}
use libp2p_transport_veilid.Prelude.{
  ℕ, ◌+◌, ◌≤◌, ◌≡◌, ◌⊎◌, inl, inr, refl, true, false, Option, none, some, arith, Option-cases,
  Bool-cases, sym, ◌∙◌,
}
use libp2p_transport_veilid.External.{External}
use libp2p_transport_veilid.Address.{safe, DhtStatus, missing, Target, Api, update_safe}
use libp2p_transport_veilid.Listener.{VeilidListener, safe_type, republishing}
use libp2p_transport_veilid.Listener.Upkeep.{
  should_update_target, update_target, update_target_task, check_task,
}

module _ {X : External} (l : VeilidListener X) (key : X.RecordKey) (keys : Option X.OwnerKeys)
    (status : DhtStatus) (is_safe : l.transport_type ≡ safe_type)
    (own : l.local_address ≡ some (safe key keys status)) where
  -- For a safe listener with a safe address: a task of `update_target` that gets a new route makes
  -- it the target, and no update is due in the 30 seconds after; a task that gets none leaves no
  -- target, and the next update is due at once.
  pub update_target_task-settles :
      (api : Api X) (utc utc' now : ℕ)
      → now ≤ utc + 30_000_000_000
      → now ≤ utc' + 30_000_000_000
      → let current = safe key keys status in
        let n = update_target_task api utc utc' current l in
        ((t : Target X) × (update_safe api current ≡ some t)
          × (n.local_target ≡ some t)
          × (should_update_target now n ≡ false))
        ⊎ ((update_safe api current ≡ none)
            × (n.local_target ≡ none)
            × (should_update_target now n ≡ true))
  unfolding update_target_task should_update_target
  update_target_task-settles api utc utc' now soon soon' =
      elim (Option-cases (update_safe api (safe key keys status))) [
        | inl failed ↦
            rw (update_target_task, failed) (inr (refl, refl, rw (is_safe, own) (ground arith)))
        | inr (t, made) ↦
            rw (update_target_task, made) (inl (t, refl, refl, rw (is_safe, own) (ground arith)))
      ]

  -- For a safe listener with a safe address: a task of `check_address_dht_record` that fails to
  -- open the record or to read it makes an update due at every time after, whatever the target
  -- and its status.
  pub check_task-fails :
      (api : Api X) (utc now : ℕ) (current : Option (Target X))
      → api.routing_context ≡ true
      → (api.open_dht_record key none ≡ false) ⊎ (api.get_dht_value key ≡ none)
      → should_update_target now (check_task api utc key current l) ≡ true
  unfolding check_task should_update_target
  check_task-fails api utc now current routed failed =
      elim (Bool-cases (api.open_dht_record key none)) [
        | inr shut ↦ rw (check_task, routed, shut) (rw (is_safe, own) (ground arith))
        | inl opened ↦ elim failed [
          | inl shut ↦ absurd (true≢false (sym opened ∙ shut))
          | inr unread ↦ rw (check_task, routed, opened, unread) (rw (is_safe, own) (ground arith))
        ]
      ]

  -- For a safe listener with a safe address that has no target, or whose address was not seen in
  -- the DHT: right after `update_target` an update is due again, whatever the time, although the
  -- target's status is republishing.
  pub update_target-again :
      (utc now : ℕ)
      → (l.local_target ≡ none) ⊎ (status ≡ missing)
      → let n = (update_target utc l).0 in
        (n.target_status ≡ republishing utc) × (should_update_target now n ≡ true)
  unfolding update_target should_update_target
  update_target-again utc now lost = elim lost [
    | inl no_route ↦ (refl, rw (is_safe, own, no_route) (ground arith))
    | inr unknown ↦ (refl, rw (is_safe, own, unknown) (ground arith))
  ]

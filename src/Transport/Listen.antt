-- ===== src/Transport/Listen.antt =====
-- src/lib.rs: `listen_on`, which starts the node and makes the one listener.
use libp2p_transport_veilid.Prelude.{
  ℕ, ◌≡◌, refl, sym, ap, subst, true, false, Option, none, some, [], ◌&&◌, arith, if◌then◌else◌,
}
use libp2p_transport_veilid.External.{External, Text}
use libp2p_transport_veilid.Errors.{
  VeilidError, callback_not_defined, could_not_create_listener, veilid_api_error,
}
use libp2p_transport_veilid.Listener
use libp2p_transport_veilid.Listener.{VeilidListener, offline}
use libp2p_transport_veilid.Listener.Events.{Pump}
use libp2p_transport_veilid.Transport.{VeilidTransport}

-- The answer of `api_startup` and `attach`: an error's text, or none.
abbrev pub Startup : Type 0
Startup = Option Text

-- `panicked` is the `unwrap` of a runtime that is not there.
pub data Listening : Type 0 where
  listening : Listening
  refused : VeilidError → Listening
  panicked : Listening

module _ {X : External} where
  abbrev pub new_pump : VeilidTransport X → ℕ → Pump X
  new_pump t id = record {
    listener = Listener.new X t.transport_type id t.node_status t.my_keypair;
    rx = [];
    rx_ended = false;
    tasks = [];
    async_rx = [];
  }

  abbrev pub with_listener : VeilidTransport X → ℕ → VeilidTransport X
  with_listener t id = record t { update_receiver = false; listener = some (new_pump t id) }

  -- What follows the node's start. The receiver of updates is taken once.
  unfoldable pub started : VeilidTransport X → ℕ → Startup → VeilidTransport X × Listening
  unfolding Listener.new
  started t id (some err) = (t, refused (veilid_api_error err))
  started t id none =
      let u = record t { api = true } in
      if t.update_receiver
      then (with_listener u id, listening)
      else (u, refused could_not_create_listener)

  unfoldable pub listen_on : VeilidTransport X → ℕ → Startup → VeilidTransport X × Listening
  unfolding started
  listen_on t id startup =
      if t.update_callback && t.config_callback
      then (if t.api
          then (t, refused could_not_create_listener)
          else if t.runtime
          then started t id startup
          else (t, panicked))
      else (t, refused callback_not_defined)

  -- A new offline listener with the given id, of a node that was started for it.
  abbrev pub Made : VeilidTransport X → ℕ → VeilidTransport X → Type 0
  Made t id u =
      (t.api ≡ false)
      × (u.api ≡ true)
      × (u.update_receiver ≡ false)
      × (p : Pump X) × (u.listener ≡ some p)
      × (p.listener.id ≡ id)
      × (p.listener.status ≡ offline)
      × (p.listener.streams ≡ [])

  -- The transport has a listener exactly if its receiver of updates was taken, which happens only
  -- once the node runs.
  pub record IsWell (t : VeilidTransport X) : Type 0 where
    pub no_listener : t.update_receiver ≡ true → t.listener ≡ none
    pub running : t.update_receiver ≡ false → t.api ≡ true

  listening_flags :
      (t : VeilidTransport X) (id : ℕ) (startup : Startup)
      → (listen_on t id startup).1 ≡ listening
      → (startup ≡ none)
        × ((t.update_callback && t.config_callback) ≡ true)
        × (t.api ≡ false)
        × (t.runtime ≡ true)
        × (t.update_receiver ≡ true)
  unfolding listen_on started
  listening_flags t id none done = ground arith
  listening_flags t id (some err) done = ground arith

  -- What a call that answers `Ok` leaves.
  listen_on_listening :
      (t : VeilidTransport X) (id : ℕ) (startup : Startup)
      → (listen_on t id startup).1 ≡ listening
      → (listen_on t id startup).0 ≡ with_listener (record t { api = true }) id
  unfolding listen_on started
  listen_on_listening t id startup done =
      let (up, callbacks, down, runs, there) = listening_flags t id startup done in
      rw (listen_on, up, callbacks, down, runs, started, there) refl

  -- Once there is a listener, nothing changes.
  listen_on_again :
      (t : VeilidTransport X) (id : ℕ) (startup : Startup)
      → (t.update_callback && t.config_callback) ≡ true
      → t.api ≡ true
      → listen_on t id startup ≡ (t, refused could_not_create_listener)
  unfolding listen_on
  listen_on_again t id startup callbacks up = ground arith

  -- The first listener, and no other.
  abbrev pub Once : VeilidTransport X → (id id' : ℕ) → Startup → VeilidTransport X → Type 0
  Once t id id' startup' u =
      (t.listener ≡ none)
      × Made t id u
      × IsWell u
      × ((listen_on u id' startup').0 ≡ u)
      × ((listen_on u id' startup').1 ≡ refused could_not_create_listener)

  -- On a transport that has a listener only if its receiver of updates was taken, which was only
  -- once the node ran: a call that answers `Ok` found no listener, leaves one that is new, offline
  -- and has the given id, and a further call is refused and leaves the transport as it is.
  pub listen_on-Once :
      (t : VeilidTransport X) (id id' : ℕ) (startup startup' : Startup)
      → IsWell t
      → (listen_on t id startup).1 ≡ listening
      → let u = (listen_on t id startup).0 in Once t id id' startup' u
  unfolding Listener.new
  listen_on-Once t id id' startup startup' v done =
      let (up, callbacks, down, runs, there) = listening_flags t id startup done in
      let w = with_listener (record t { api = true }) id in
      let again = listen_on_again w id' startup' callbacks refl in
      subst (Once t id id' startup') (sym (listen_on_listening t id startup done)) (
        v.no_listener there,
        (down, refl, refl, new_pump t id, refl, refl, refl, refl),
        record { no_listener = λ e. cc; running = λ e. refl },
        ap (λ r. r.0) again,
        ap (λ r. r.1) again,
      )

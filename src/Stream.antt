-- ===== src/Stream.antt =====
-- src/stream.rs: one `VeilidStream`, its status and its setters. The children model what it does
-- with inbound and with outbound data. A mutex is a field (no lock is ever poisoned), a method that
-- writes returns the new record, and `now` is the instant at which the method reads the clock.
pub mod Status
pub mod Frames
pub mod Inbound
pub mod Outbound
pub mod Statuses
use libp2p_transport_veilid.Prelude.{
  ℕ, ◌+◌, Bool, true, false, Option, none, some, List, [], ◌∷◌, ltb, ◌&&◌, not, if◌then◌else◌,
}
use libp2p_transport_veilid.Prelude.Map.{Map}
use libp2p_transport_veilid.External.{External, Bytes}
use libp2p_transport_veilid.Config.{settings, from_secs}
use libp2p_transport_veilid.Seq
use libp2p_transport_veilid.Seq.{StreamSeq}
use libp2p_transport_veilid.Address.{Address, Target}

pub data StreamStatus : Type 0 where
  dial listen active expired : StreamStatus

-- The field `data` of the source is `msg`.
pub record OutboundMessage : Type 0 where
  pub seq : ℕ
  pub msg : Bytes
  pub last_try_send : Option ℕ

-- `waker` is the identity of the task that waits; the reference to the network API is left out.
pub record VeilidStream (X : External) : Type 0 where
  pub listener_id : ℕ
  pub my_keypair : X.Keypair
  pub remote_public_key : Option X.PublicKey
  pub local_address : Address X
  pub remote_address : Address X
  pub remote_target : Target X
  pub my_stream_id : ℕ
  pub remote_stream_id : ℕ
  pub waker : Option ℕ
  pub inbound_stream : Bytes
  pub inbound_buffer : Bytes
  pub inbound_received_seq : StreamSeq
  pub inbound_message_queue : Map ℕ Bytes
  pub inbound_last_timestamp : ℕ
  pub outbound_stream : Bytes
  pub outbound_message_queue : Map ℕ OutboundMessage
  pub outbound_last_seq : StreamSeq
  pub outbound_delivered_seq : StreamSeq
  pub outbound_last_timestamp : ℕ
  pub status : StreamStatus

-- What a method does outside its stream: it wakes a task, hands a message for a target to the
-- network, spawns a task that generates and sends messages, or panics in a spawned task.
pub data Effect (X : External) : Type 0 where
  wake : ℕ → Effect X
  app_message : Target X → Bytes → Effect X
  spawn_flush : Effect X
  task_panic : Effect X

-- `now_secs` is the time since the epoch, which becomes the stream's id.
unfoldable pub new :
    (X : External) (now now_secs listener_id : ℕ) (local_address remote_address : Address X)
    (remote_target : Target X) (remote_stream_id : ℕ)
    → X.Keypair
    → VeilidStream X
unfolding Seq.new
new X now now_secs listener_id local_address remote_address remote_target remote_stream_id keypair =
    record {
      listener_id = listener_id;
      my_keypair = keypair;
      remote_public_key = none;
      local_address = local_address;
      remote_address = remote_address;
      remote_target = remote_target;
      my_stream_id = now_secs;
      remote_stream_id = remote_stream_id;
      waker = none;
      inbound_stream = [];
      inbound_buffer = [];
      inbound_received_seq = Seq.new 0;
      inbound_message_queue = [];
      inbound_last_timestamp = now;
      outbound_stream = [];
      outbound_message_queue = [];
      outbound_last_seq = Seq.new 0;
      outbound_delivered_seq = Seq.new 0;
      outbound_last_timestamp = now;
      status = dial;
    }

abbrev pub is_status_active : StreamStatus → Bool
is_status_active active = true
is_status_active _ = false

abbrev pub is_status_expired : StreamStatus → Bool
is_status_expired expired = true
is_status_expired _ = false

module _ {X : External} where
  unfoldable pub update_remote_stream_id : VeilidStream X → ℕ → VeilidStream X
  update_remote_stream_id s id = record s { remote_stream_id = id }

  unfoldable pub update_inbound_last_timestamp_to_now : ℕ → VeilidStream X → VeilidStream X
  update_inbound_last_timestamp_to_now now s = record s { inbound_last_timestamp = now }

  unfoldable pub update_outbound_last_timestamp_to_now : ℕ → VeilidStream X → VeilidStream X
  update_outbound_last_timestamp_to_now now s = record s { outbound_last_timestamp = now }

  unfoldable pub update_status : VeilidStream X → StreamStatus → VeilidStream X
  update_status s status = record s { status = status }

  unfoldable pub update_remote_public_key : VeilidStream X → X.PublicKey → VeilidStream X
  update_remote_public_key s key = record s { remote_public_key = some key }

  unfoldable pub get_outbound_last_seq : VeilidStream X → ℕ
  unfolding Seq.load
  get_outbound_last_seq s = Seq.load s.outbound_last_seq

  unfoldable pub get_outbound_delivered_seq : VeilidStream X → ℕ
  unfolding Seq.load
  get_outbound_delivered_seq s = Seq.load s.outbound_delivered_seq

  unfoldable pub get_inbound_received_seq : VeilidStream X → ℕ
  unfolding Seq.load
  get_inbound_received_seq s = Seq.load s.inbound_received_seq

  unfoldable pub increment_outbound_last_seq : VeilidStream X → VeilidStream X
  unfolding Seq.increment
  increment_outbound_last_seq s = record s {
    outbound_last_seq = (Seq.increment s.outbound_last_seq).0;
  }

  unfoldable pub update_outbound_delivered_seq : VeilidStream X → ℕ → VeilidStream X
  unfolding Seq.update
  update_outbound_delivered_seq s new_value = record s {
    outbound_delivered_seq = Seq.update s.outbound_delivered_seq new_value;
  }

  unfoldable pub update_inbound_received_seq : VeilidStream X → ℕ → VeilidStream X
  unfolding Seq.update
  update_inbound_received_seq s new_value = record s {
    inbound_received_seq = Seq.update s.inbound_received_seq new_value;
  }

  -- `last_active > now - stream_timeout_secs`.
  abbrev pub is_recent : ℕ → VeilidStream X → Bool
  is_recent now s = ltb now (s.inbound_last_timestamp + from_secs settings.stream_timeout_secs)

  unfoldable pub is_pending : VeilidStream X → Bool
  is_pending s = not (is_status_active s.status) && not (is_status_expired s.status)

  unfoldable pub is_active : ℕ → VeilidStream X → Bool
  is_active now s = if is_status_active s.status then is_recent now s else false

  unfoldable pub is_expired : ℕ → VeilidStream X → Bool
  is_expired now s = if is_status_expired s.status then false else not (is_recent now s)

  unfoldable pub get_status : ℕ → VeilidStream X → StreamStatus
  get_status now s = elim s.status [
    | dial ↦ dial
    | listen ↦ listen
    | active ↦ if is_recent now s then active else expired
    | expired ↦ expired
  ]

  unfoldable pub get_remote_stream_id : VeilidStream X → ℕ
  get_remote_stream_id s = s.remote_stream_id

  unfoldable pub get_remote_target : VeilidStream X → Target X
  get_remote_target s = s.remote_target

  unfoldable pub wake_to_read : VeilidStream X → List (Effect X)
  wake_to_read s = elim s.waker [ none ↦ [] | some task ↦ wake task ∷ [] ]

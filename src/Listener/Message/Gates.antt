-- ===== src/Listener/Message/Gates.antt =====
-- The guards of `convert_update` on an `AppMessage`: messages that are dropped.
use libp2p_transport_veilid.Prelude.{ℕ, ◌≡◌, refl, ◌∙◌, false, none, some, drop, arith}
use libp2p_transport_veilid.Prelude.Map.{lookup}
use libp2p_transport_veilid.External.{External, Bytes}
use libp2p_transport_veilid.Address.{Address, Address-discrete, Api}
use libp2p_transport_veilid.Stream.{
  VeilidStream, StreamStatus, dial, listen, active, expired, update_remote_public_key,
}
use libp2p_transport_veilid.Stream.Outbound.{Routing}
use libp2p_transport_veilid.Listener.{VeilidListener, Clock, put_stream}
use libp2p_transport_veilid.Listener.Decode.{Message, data_type, verify_signature, message_type}
use libp2p_transport_veilid.Listener.Message.{
  quiet, on_message, on_stream, by_status, refresh_id, learn_key, with_key, on_dial, on_listen,
  on_active,
}

-- Learning a key leaves the status.
pub learn_key-status :
    {X : External} (n : ℕ) (bytes : Bytes) (s : VeilidStream X)
    → (learn_key n bytes s).status ≡ s.status
unfolding learn_key update_remote_public_key
learn_key-status {X} n bytes s =
    elim (X.try_decode_protobuf (drop n bytes)) as (λ k. (with_key s k).status ≡ s.status) [
      | none ↦ refl
      | some k ↦ refl
    ]

module _ {X : External} (clock : Clock) (api : Api X) (r : Routing) (l : VeilidListener X)
    (m : Message X) (local_address : Address X) (s : VeilidStream X) where
  -- The handler of a message for a stream that is there.
  pub on_message_found :
      l.local_address ≡ some local_address
      → lookup (Address-discrete X) m.address l.streams ≡ some s
      → on_message clock api r l m
        ≡ on_stream clock api r
            (put_stream l m.address (refresh_id m s))
            local_address
            m
            (refresh_id m s)
            (verify_signature X s.remote_public_key m.msg_data m.signature)
            (message_type m.msg_data)
  unfolding on_message
  on_message_found here found = rw (found, here) refl

  unsigned_by_status :
      (n : VeilidListener X) (st : StreamStatus)
      → by_status clock api r n local_address m s false data_type st ≡ quiet n
  unfolding by_status on_dial on_listen on_active
  unsigned_by_status n dial = refl
  unsigned_by_status n listen = ground arith
  unsigned_by_status n active = refl
  unsigned_by_status n expired = refl

module _ {X : External} (clock : Clock) (api : Api X) (r : Routing) (l : VeilidListener X)
    (m : Message X) (local_address : Address X) (s : VeilidStream X)
    (here : l.local_address ≡ some local_address)
    (found : lookup (Address-discrete X) m.address l.streams ≡ some s) where
  -- At a listener that knows its own address, for an address with a stream: a data message whose
  -- signature does not verify against the stream's key, or for whose stream
  -- no key is known, changes nothing, has no effect and makes no event, whatever the stream's
  -- status; only a remote stream id that is still 0 is set from it.
  pub on_message-unsigned :
      message_type m.msg_data ≡ data_type
      → verify_signature X s.remote_public_key m.msg_data m.signature ≡ false
      → on_message clock api r l m ≡ quiet (put_stream l m.address (refresh_id m s))
  unfolding on_stream
  on_message-unsigned kind unsigned =
      on_message_found clock api r l m local_address s here found
      ∙ rw (kind, unsigned)
          (rw
            (unsigned_by_status clock api r l m local_address (refresh_id m s)
              (put_stream l m.address (refresh_id m s)) (refresh_id m s).status)
            (ground arith))

-- ===== src/Config.antt =====
-- `Settings` and the constant `SETTINGS` of src/lib.rs, and time. An `Instant` is a number of
-- nanoseconds; a test `t > now - d` is written `now < t + d`, which needs no negative instants.
use libp2p_transport_veilid.Prelude.{ℕ, ◌*◌}

pub record Settings : Type 0 where
  pub veilid_network_message_limit_bytes : ℕ
  pub transport_stream_packet_data_size_bytes : ℕ
  pub connection_keepalive_timeout : ℕ
  pub message_retry_timeout : ℕ
  pub stream_timeout_secs : ℕ
  pub heartbeat_secs : ℕ

abbrev pub settings : Settings
settings = record {
  veilid_network_message_limit_bytes = 32768;
  transport_stream_packet_data_size_bytes = 32623;
  connection_keepalive_timeout = 5;
  message_retry_timeout = 5;
  stream_timeout_secs = 20;
  heartbeat_secs = 5;
}

-- `Duration::from_secs`.
abbrev pub from_secs : ℕ → ℕ
from_secs n = n * 1_000_000_000

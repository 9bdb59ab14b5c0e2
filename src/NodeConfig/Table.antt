-- ===== src/NodeConfig/Table.antt =====
-- src/settings.rs: `CONFIG_TABLE`, and `get_value_type`, which reads it.
use libp2p_transport_veilid.Prelude.{Option, none, some, List, [], ◌∷◌, if◌then◌else◌}
use libp2p_transport_veilid.Prelude.Strings.{codes}
use libp2p_transport_veilid.External.{Text}
use libp2p_transport_veilid.Address.{same_text}

pub data ValueType : Type 0 where
  str_type bool_type opt_string_type u32_type u8_type opt_u32_type : ValueType
  vec_string_type vec_four_cc_type : ValueType

unfoldable pub config_table : List (Text × ValueType)
config_table =
    (codes "program_name", str_type)
    ∷ (codes "namespace", str_type)
    ∷ (codes "logging.api.enabled", bool_type)
    ∷ (codes "logging.api.level", str_type)
    ∷ (codes "capabilities.disable", vec_four_cc_type)
    ∷ (codes "block_store.delete", bool_type)
    ∷ (codes "protected_store.allow_insecure_fallback", bool_type)
    ∷ (codes "protected_store.always_use_insecure_storage", bool_type)
    ∷ (codes "protected_store.delete", bool_type)
    ∷ (codes "protected_store.device_encryption_key_password", str_type)
    ∷ (codes "protected_store.new_device_encryption_key_password", opt_string_type)
    ∷ (codes "table_store.delete", bool_type)
    ∷ (codes "network.application.http.enabled", bool_type)
    ∷ (codes "network.application.http.listen_address", str_type)
    ∷ (codes "network.application.http.path", str_type)
    ∷ (codes "network.application.http.url", opt_string_type)
    ∷ (codes "network.application.https.enabled", bool_type)
    ∷ (codes "network.application.https.listen_address", str_type)
    ∷ (codes "network.application.https.path", str_type)
    ∷ (codes "network.application.https.url", opt_string_type)
    ∷ (codes "network.client_whitelist_timeout_ms", u32_type)
    ∷ (codes "network.client_allowlist_timeout_ms", u32_type)
    ∷ (codes "network.connection_initial_timeout_ms", u32_type)
    ∷ (codes "network.connection_inactivity_timeout_ms", u32_type)
    ∷ (codes "network.detect_address_changes", bool_type)
    ∷ (codes "network.dht.max_find_node_count", u32_type)
    ∷ (codes "network.dht.resolve_node_timeout_ms", u32_type)
    ∷ (codes "network.dht.resolve_node_count", u32_type)
    ∷ (codes "network.dht.resolve_node_fanout", u32_type)
    ∷ (codes "network.dht.get_value_timeout_ms", u32_type)
    ∷ (codes "network.dht.get_value_count", u32_type)
    ∷ (codes "network.dht.get_value_fanout", u32_type)
    ∷ (codes "network.dht.set_value_timeout_ms", u32_type)
    ∷ (codes "network.dht.set_value_count", u32_type)
    ∷ (codes "network.dht.set_value_fanout", u32_type)
    ∷ (codes "network.dht.member_watch_limit", u32_type)
    ∷ (codes "network.dht.min_peer_count", u32_type)
    ∷ (codes "network.dht.min_peer_refresh_time_ms", u32_type)
    ∷ (codes "network.dht.max_watch_expiration_ms", u32_type)
    ∷ (codes "network.dht.validate_dial_info_receipt_time_ms", u32_type)
    ∷ (codes "network.dht.local_subkey_cache_size", u32_type)
    ∷ (codes "network.dht.local_max_subkey_cache_memory_mb", u32_type)
    ∷ (codes "network.dht.public_watch_limit", u32_type)
    ∷ (codes "network.dht.remote_subkey_cache_size", u32_type)
    ∷ (codes "network.dht.remote_max_records", u32_type)
    ∷ (codes "network.dht.remote_max_subkey_cache_memory_mb", u32_type)
    ∷ (codes "network.dht.remote_max_storage_space_mb", u32_type)
    ∷ (codes "network.hole_punch_receipt_time_ms", u32_type)
    ∷ (codes "network.max_connections_per_ip4", u32_type)
    ∷ (codes "network.max_connections_per_ip6_prefix", u32_type)
    ∷ (codes "network.max_connections_per_ip6_prefix_size", u32_type)
    ∷ (codes "network.max_connection_frequency_per_min", u32_type)
    ∷ (codes "network.network_key_password", opt_string_type)
    ∷ (codes "network.protocol.tcp.connect", bool_type)
    ∷ (codes "network.protocol.tcp.listen", bool_type)
    ∷ (codes "network.protocol.tcp.max_connections", u32_type)
    ∷ (codes "network.protocol.tcp.listen_address", str_type)
    ∷ (codes "network.protocol.tcp.public_address", opt_string_type)
    ∷ (codes "network.protocol.udp.enabled", bool_type)
    ∷ (codes "network.protocol.udp.socket_pool_size", u32_type)
    ∷ (codes "network.protocol.udp.listen_address", str_type)
    ∷ (codes "network.protocol.udp.public_address", opt_string_type)
    ∷ (codes "network.protocol.ws.connect", bool_type)
    ∷ (codes "network.protocol.ws.listen", bool_type)
    ∷ (codes "network.protocol.ws.listen_address", str_type)
    ∷ (codes "network.protocol.ws.max_connections", u32_type)
    ∷ (codes "network.protocol.ws.path", str_type)
    ∷ (codes "network.protocol.ws.url", opt_string_type)
    ∷ (codes "network.protocol.wss.connect", bool_type)
    ∷ (codes "network.protocol.wss.listen", bool_type)
    ∷ (codes "network.protocol.wss.listen_address", str_type)
    ∷ (codes "network.protocol.wss.max_connections", u32_type)
    ∷ (codes "network.protocol.wss.path", str_type)
    ∷ (codes "network.protocol.wss.url", opt_string_type)
    ∷ (codes "network.restricted_nat_retries", u32_type)
    ∷ (codes "network.reverse_connection_receipt_time_ms", u32_type)
    ∷ (codes "network.routing_table.bootstrap", vec_string_type)
    ∷ (codes "network.routing_table.limit_over_attached", u32_type)
    ∷ (codes "network.routing_table.limit_fully_attached", u32_type)
    ∷ (codes "network.routing_table.limit_attached_strong", u32_type)
    ∷ (codes "network.routing_table.limit_attached_good", u32_type)
    ∷ (codes "network.routing_table.limit_attached_weak", u32_type)
    ∷ (codes "network.rpc.concurrency", u32_type)
    ∷ (codes "network.rpc.default_route_hop_count", u8_type)
    ∷ (codes "network.rpc.max_timestamp_behind_ms", opt_u32_type)
    ∷ (codes "network.rpc.max_timestamp_ahead_ms", opt_u32_type)
    ∷ (codes "network.rpc.max_route_hop_count", u8_type)
    ∷ (codes "network.rpc.queue_size", u32_type)
    ∷ (codes "network.rpc.timeout_ms", u32_type)
    ∷ (codes "network.tls.certificate_path", str_type)
    ∷ (codes "network.tls.connection_initial_timeout_ms", u32_type)
    ∷ (codes "network.tls.private_key_path", str_type)
    ∷ (codes "network.upnp", bool_type)
    ∷ []

-- The loop: the first entry with the key.
unfoldable pub find_type : List (Text × ValueType) → Text → Option ValueType
find_type [] key = none
find_type ((entry_key, entry_value) ∷ entries) key =
    let later = find_type entries key in if same_text entry_key key then some entry_value else later

-- `none` is its error.
unfoldable pub get_value_type : Text → Option ValueType
unfolding find_type config_table
get_value_type key = find_type config_table key

-- ===== src/NodeConfig.antt =====
-- src/settings.rs: the node's configuration, which Veilid asks for key by key. It stands in a TOML
-- file, and the node's key pair in a file beside it.
pub mod Table
pub mod Defaults
pub mod Values
pub mod Disk
pub mod Keys
pub mod Lookup
use libp2p_transport_veilid.Prelude.{ℕ, Bool, Option, List, ◌⊎◌}
use libp2p_transport_veilid.External.{Text}

-- An `i64`.
pub data ℤ : Type 0 where
  pos : ℕ → ℤ
  negsuc : ℕ → ℤ

-- What the module takes from the crate toml, from libp2p and from veilid_core.
pub record Formats : Type 1 where
  -- `toml::Value`: `parse` of a text, or its error's text; `get` with a key; and the accessors.
  pub Value : Type 0
  pub parse : Text → Value ⊎ Text
  pub get : Value → Text → Option Value
  pub as_str : Value → Option Text
  pub as_bool : Value → Option Bool
  pub as_integer : Value → Option ℤ
  pub as_array : Value → Option (List Value)
  -- `CryptoKind::from_str`.
  pub CryptoKind : Type 0
  pub crypto_kind : Text → Option CryptoKind
  -- `Keypair`, and `public().to_peer_id().to_string()`.
  pub NodeKeys : Type 0
  pub peer_id : NodeKeys → Text
  -- `CryptoTyped<KeyPair>`, its `parse` and `to_string`, and the two halves.
  pub KeyPair : Type 0
  pub PublicKey : Type 0
  pub SecretKey : Type 0
  pub parse_pair : Text → Option KeyPair
  pub pair_to_string : KeyPair → Text
  pub key : KeyPair → PublicKey
  pub secret : KeyPair → SecretKey

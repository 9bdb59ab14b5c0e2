-- ===== src/NodeConfig/Lookup.antt =====
-- src/settings.rs: `lookup_config`.
pub mod Typed
pub mod Files
pub mod Repeat
pub mod Again
pub mod Entries
use libp2p_transport_veilid.Prelude.{
  ◌≤◌, Bool, true, false, Option, none, some, List, [], ◌∷◌, ◌++◌, ◌⊎◌, inl, inr, ltb, drop, length,
  if◌then◌else◌,
}
use libp2p_transport_veilid.Prelude.Strings.{codes}
use libp2p_transport_veilid.External.{Text}
use libp2p_transport_veilid.Address.{same_text, split}
use libp2p_transport_veilid.NodeConfig.{Formats}
use libp2p_transport_veilid.NodeConfig.Table.{ValueType, get_value_type}
use libp2p_transport_veilid.NodeConfig.Values.{
  ConfigValue, str, node_id_group, node_id_secret_group, Answer, answered, refused, panicked, typed,
}
use libp2p_transport_veilid.NodeConfig.Defaults.{default_settings}
use libp2p_transport_veilid.NodeConfig.Disk.{
  Disk, Faults, file, write_file, read_file, make_directory, node_directory, settings_path,
}
use libp2p_transport_veilid.NodeConfig.Keys
use libp2p_transport_veilid.NodeConfig.Keys.{Managed, returned, manage_keypair}

-- `to_string()[44..]` panics if the text is shorter.
abbrev pub node_text : Text → Option Text
node_text peer_id = if ltb (length peer_id) 44 then none else some (drop 44 peer_id)

abbrev pub write_error : Option (Bool × Text) → Option Text
write_error none = none
write_error (some (false, e)) = some (codes "Failed to create settings file: " ++ e)
write_error (some (true, e)) =
    some (codes "Failed to write default settings to settings.toml: " ++ e)

abbrev pub not_found : Text → Text
not_found key = codes "Config key '" ++ (key ++ codes "' not found in TOML")

-- A key that the module answers itself if the file has no value for it.
pub data Special : Type 0 where
  node_id_key node_id_secret_key : Special
  directory_key : (leaf : Text) → Special

-- The arms of the `match`.
unfoldable pub special_keys : List (Text × Special)
special_keys =
    (codes "network.routing_table.node_id", node_id_key)
    ∷ (codes "network.routing_table.node_id_secret", node_id_secret_key)
    ∷ (codes "protected_store.directory", directory_key (codes "/protected"))
    ∷ (codes "block_store.directory", directory_key (codes "/block"))
    ∷ (codes "table_store.directory", directory_key (codes "/table"))
    ∷ []

unfoldable pub find_special : List (Text × Special) → Text → Option Special
find_special [] key = none
find_special ((text, k) ∷ rest) key =
    let later = find_special rest key in if same_text key text then some k else later

unfoldable pub special : Text → Option Special
unfolding find_special special_keys
special key = find_special special_keys key

-- What a call of `lookup_config` meets: the failures at the settings file and at the key file, and
-- the pair that `generate_keypair` gives if it is called.
pub record Calls (F : Formats) : Type 0 where
  pub settings : Faults
  pub keys : Faults
  pub generated : Option F.KeyPair

module _ (F : Formats) where
  -- The default settings, if there is no file: the disk, and an error's text.
  unfoldable pub ensure_settings : Faults → Text → Disk → Disk × Option Text
  unfolding file write_file
  ensure_settings faults path d = elim (file d path) [
    | some text ↦ (d, none)
    | none ↦
        let (e, fault) = write_file faults.write path default_settings d in (e, write_error fault)
  ]

  -- The loop over the parts of a key. A part that is missing is an error unless it is the last one.
  unfoldable pub walk : List Text → Option F.Value → Option (Option F.Value)
  walk [] current = some current
  walk (key_part ∷ rest) none = none
  walk (key_part ∷ rest) (some v) = walk rest (F.get v key_part)

  -- The answer from a key pair.
  abbrev pub from_pair : (F.KeyPair → ConfigValue F) → Managed F → Answer F
  from_pair f (returned (some key_pair)) = answered (f key_pair)
  from_pair f (returned none) = refused (codes "Failed to retreive keypair")
  from_pair f Managed.panicked = panicked

  abbrev pub pair_answer : (F.KeyPair → ConfigValue F) → Disk × Managed F → Disk × Answer F
  pair_answer f (d, m) = (d, from_pair f m)

  abbrev pub special_answer : Calls F → (id key : Text) → Disk → Option Special → Disk × Answer F
  special_answer calls id key d none = (d, refused (not_found key))
  special_answer calls id key d (some node_id_key) =
      pair_answer (λ k. node_id_group (F.key k)) (manage_keypair F calls.keys calls.generated id d)
  special_answer calls id key d (some node_id_secret_key) =
      pair_answer (λ k. node_id_secret_group (F.secret k))
        (manage_keypair F calls.keys calls.generated id d)
  special_answer calls id key d (some (directory_key leaf)) =
      (d, answered (str (node_directory id ++ leaf)))

  abbrev pub typed_answer : (key : Text) → Option ValueType → F.Value → Answer F
  typed_answer key none v = refused (codes "get_value_type | key not found '" ++ (key ++ codes "'"))
  typed_answer key (some ty) v = typed ty v

  -- What was found for the key.
  abbrev pub found_answer :
      Calls F → (id key : Text) → Disk → Option (Option F.Value) → Disk × Answer F
  found_answer calls id key d none = (d, refused (not_found key))
  found_answer calls id key d (some none) = special_answer calls id key d (special key)
  found_answer calls id key d (some (some v)) = (d, typed_answer key (get_value_type key) v)

  abbrev pub parsed_answer : Calls F → (id key : Text) → Disk → F.Value ⊎ Text → Disk × Answer F
  parsed_answer calls id key d (inr e) = (d, refused (codes "Failed to parse toml: " ++ e))
  parsed_answer calls id key d (inl value) =
      found_answer calls id key d (walk (split b'.' key) (some value))

  abbrev pub read_answer : Calls F → (id key : Text) → Disk → Option Text → Disk × Answer F
  read_answer calls id key d none = (d, refused (codes "Failed to read settings.toml"))
  read_answer calls id key d (some toml_str) = parsed_answer calls id key d (F.parse toml_str)

  abbrev pub ensured_answer : Calls F → (id key : Text) → Disk × Option Text → Disk × Answer F
  ensured_answer calls id key (d, some e) = (d, refused e)
  ensured_answer calls id key (d, none) =
      read_answer calls id key d (read_file calls.settings.read_to_string (settings_path id) d)

  abbrev pub node_answer :
      Calls F → (key : Text) → Disk → (id fault : Option Text) → Disk × Answer F
  node_answer calls key d none fault = (d, panicked)
  node_answer calls key d (some id) (some e) =
      (d, refused (codes "Failed to create directory: " ++ e))
  node_answer calls key d (some id) none = ensured_answer calls id key (
      ensure_settings calls.settings (settings_path id) (make_directory none (node_directory id) d))

  unfoldable pub lookup_config : Calls F → (config_key : Text) → F.NodeKeys → Disk → Disk × Answer F
  unfolding walk special get_value_type typed manage_keypair ensure_settings read_file
      make_directory split
  lookup_config calls config_key node_keys d =
      node_answer calls config_key d (node_text (F.peer_id node_keys)) calls.settings.create_dir_all

-- ===== src/NodeConfig/Lookup/Typed.antt =====
-- Which values `lookup_config` answers with, for each key.
use libp2p_transport_veilid.Prelude.{
  ◌≡◌, ◌≤◌, refl, sym, ◌∙◌, Option, none, some, ◌⊎◌, inl, inr, ◌++◌, length, drop, arith,
  Option-cases,
}
use libp2p_transport_veilid.Prelude.Strings.{codes}
use libp2p_transport_veilid.External.{Text}
use libp2p_transport_veilid.Address.{split}
use libp2p_transport_veilid.NodeConfig.{Formats}
use libp2p_transport_veilid.NodeConfig.Table.{ValueType, get_value_type}
use libp2p_transport_veilid.NodeConfig.Values.{
  ConfigValue, str, node_id_group, node_id_secret_group, answered,
}
use libp2p_transport_veilid.NodeConfig.Values.Types.{HasType, typed-HasType}
use libp2p_transport_veilid.NodeConfig.Disk.{
  Disk, Faults, file, write_file, make_directory, node_directory, settings_path, keys_path,
  read_file,
}
use libp2p_transport_veilid.NodeConfig.Disk.Files.{
  file-write_file_other, paths_differ, file-make_directory,
}
use libp2p_transport_veilid.NodeConfig.Keys.{Managed, returned, manage_keypair}
use libp2p_transport_veilid.NodeConfig.Keys.Source.{IsNodePair, manage_keypair-IsNodePair}
use libp2p_transport_veilid.NodeConfig.Defaults.{default_settings}
use libp2p_transport_veilid.NodeConfig.Lookup.{
  Calls, Special, special, node_id_key, node_id_secret_key, directory_key, node_text, lookup_config,
  node_answer, ensured_answer, read_answer, parsed_answer, found_answer, special_answer, from_pair,
  typed_answer, walk, ensure_settings,
}

module _ (F : Formats) (calls : Calls F) (node_keys : F.NodeKeys) (d : Disk) where
  -- The value of a key that the module answers itself, for the node with an id.
  abbrev pub HasShape : Text → Special → ConfigValue F → Type 0
  HasShape id node_id_key a =
      (k : F.KeyPair) × IsNodePair F calls.keys calls.generated id d k
      × (a ≡ node_id_group (F.key k))
  HasShape id node_id_secret_key a =
      (k : F.KeyPair) × IsNodePair F calls.keys calls.generated id d k
      × (a ≡ node_id_secret_group (F.secret k))
  HasShape id (directory_key leaf) a = a ≡ str (codes "./.veilid/" ++ id ++ leaf)

  -- The id is the node's peer id without its first 44 characters.
  abbrev pub Describes : Text → ConfigValue F → Type 0
  Describes key a =
      ((ty : ValueType) × (get_value_type key ≡ some ty) × HasType ty a)
      ⊎ ((k : Special) × (special key ≡ some k)
          × (id : Text) × (44 ≤ length (F.peer_id node_keys))
          × (id ≡ drop 44 (F.peer_id node_keys))
          × HasShape id k a)

module _ {F : Formats} where
  -- An answer from a key pair.
  pub from_pair-answered :
      (f : F.KeyPair → ConfigValue F) (m : Managed F) (a : ConfigValue F)
      → from_pair F f m ≡ answered a
      → (k : F.KeyPair) × (m ≡ returned (some k)) × (a ≡ f k)
  from_pair-answered f (returned none) a e = cc
  from_pair-answered f (returned (some k)) a e = (k, refl, cc)
  from_pair-answered f Managed.panicked a e = cc

module _ {F : Formats} (calls : Calls F) (node_keys : F.NodeKeys) (d : Disk) (key : Text)
    (a : ConfigValue F) where
  typed_answer-Describes :
      (o : Option ValueType) (v : F.Value)
      → get_value_type key ≡ o
      → typed_answer F key o v ≡ answered a
      → Describes F calls node_keys d key a
  typed_answer-Describes none v known e = cc
  typed_answer-Describes (some ty) v known e = inl (ty, known, typed-HasType ty v a e)

  module _ (id : Text) (long : 44 ≤ length (F.peer_id node_keys))
      (is_id : id ≡ drop 44 (F.peer_id node_keys)) where
    special_answer-Describes :
        (e : Disk) (o : Option Special)
        → special key ≡ o
        → file e (keys_path id) ≡ file d (keys_path id)
        → (special_answer F calls id key e o).1 ≡ answered a
        → Describes F calls node_keys d key a
    special_answer-Describes e none known same q = cc
    special_answer-Describes e (some node_id_key) known same q =
        let (k, m, shape) =
          from_pair-answered (λ k. node_id_group (F.key k))
            (manage_keypair F calls.keys calls.generated id e).1 a q in
        inr (
          node_id_key,
          known,
          id,
          long,
          is_id,
          (k, manage_keypair-IsNodePair F calls.keys calls.generated id d e k same m, shape),
        )
    special_answer-Describes e (some node_id_secret_key) known same q =
        let (k, m, shape) =
          from_pair-answered (λ k. node_id_secret_group (F.secret k))
            (manage_keypair F calls.keys calls.generated id e).1 a q in
        inr (
          node_id_secret_key,
          known,
          id,
          long,
          is_id,
          (k, manage_keypair-IsNodePair F calls.keys calls.generated id d e k same m, shape),
        )
    special_answer-Describes e (some (directory_key leaf)) known same q =
        inr (directory_key leaf, known, id, long, is_id, cc)

    found_answer-Describes :
        (e : Disk) (o : Option (Option F.Value))
        → file e (keys_path id) ≡ file d (keys_path id)
        → (found_answer F calls id key e o).1 ≡ answered a
        → Describes F calls node_keys d key a
    found_answer-Describes e none same q = cc
    found_answer-Describes e (some none) same q =
        special_answer-Describes e (special key) refl same q
    found_answer-Describes e (some (some v)) same q =
        typed_answer-Describes (get_value_type key) v refl q

    parsed_answer-Describes :
        (e : Disk) (o : F.Value ⊎ Text)
        → file e (keys_path id) ≡ file d (keys_path id)
        → (parsed_answer F calls id key e o).1 ≡ answered a
        → Describes F calls node_keys d key a
    parsed_answer-Describes e (inl value) same q =
        found_answer-Describes e (walk F (split b'.' key) (some value)) same q
    parsed_answer-Describes e (inr err) same q = cc

    read_answer-Describes :
        (e : Disk) (o : Option Text)
        → file e (keys_path id) ≡ file d (keys_path id)
        → (read_answer F calls id key e o).1 ≡ answered a
        → Describes F calls node_keys d key a
    read_answer-Describes e none same q = cc
    read_answer-Describes e (some toml_str) same q =
        parsed_answer-Describes e (F.parse toml_str) same q

    ensured_answer-Describes :
        (r : Disk × Option Text)
        → file r.0 (keys_path id) ≡ file d (keys_path id)
        → (ensured_answer F calls id key r).1 ≡ answered a
        → Describes F calls node_keys d key a
    ensured_answer-Describes (e, none) same q =
        read_answer-Describes e (read_file calls.settings.read_to_string (settings_path id) e) same
          q
    ensured_answer-Describes (e, some err) same q = cc

  -- The default settings do not touch the key file.
  ensure_settings-keys :
      (id : Text) (faults : Faults) (e : Disk)
      → file (ensure_settings F faults (settings_path id) e).0 (keys_path id)
        ≡ file e (keys_path id)
  unfolding ensure_settings write_file
  ensure_settings-keys id faults e = elim (Option-cases (file e (settings_path id))) [
    | inl absent ↦
        rw (ensure_settings, absent)
          (file-write_file_other faults.write (settings_path id) (keys_path id) default_settings e
            (λ same. paths_differ id (sym same)))
    | inr (text, there) ↦ rw (ensure_settings, there) refl
  ]

  node_answer-Describes :
      (o fault : Option Text)
      → node_text (F.peer_id node_keys) ≡ o
      → (node_answer F calls key d o fault).1 ≡ answered a
      → Describes F calls node_keys d key a
  node_answer-Describes none fault named q = cc
  node_answer-Describes (some id) (some err) named q = cc
  node_answer-Describes (some id) none named q =
      ensured_answer-Describes id (ground arith) (ground arith)
        (ensure_settings F calls.settings (settings_path id)
          (make_directory none (node_directory id) d))
        (ensure_settings-keys id calls.settings (make_directory none (node_directory id) d)
          ∙ file-make_directory none (node_directory id) (keys_path id) d)
        q

  -- A value that the lookup answers with has the type that the table names for the key, its numbers
  -- in range, or the key is one of the five that the table lacks. Then the value is, for the node's
  -- id or its secret, that of the pair in the node's key file before the call, or of the generated
  -- pair if no pair can be read from the file; and for a directory, that leaf in the node's folder.
  -- The node's folder is named by its peer id without the first 44 characters.
  pub lookup_config-Describes :
      (lookup_config F calls key node_keys d).1 ≡ answered a → Describes F calls node_keys d key a
  unfolding lookup_config
  lookup_config-Describes q =
      node_answer-Describes (node_text (F.peer_id node_keys)) calls.settings.create_dir_all refl q

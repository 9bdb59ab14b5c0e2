-- ===== src/NodeConfig/Lookup/Files.antt =====
-- What `lookup_config` does to the node's settings file.
use libp2p_transport_veilid.Prelude.{
  ℕ, ◌≡◌, refl, ap, ◌∙◌, Option, none, some, ◌⊎◌, inl, inr, take, ◌++◌,
}
use libp2p_transport_veilid.Prelude.Strings.{codes}
use libp2p_transport_veilid.External.{Text}
use libp2p_transport_veilid.Address.{split}
use libp2p_transport_veilid.NodeConfig.{Formats}
use libp2p_transport_veilid.NodeConfig.Defaults.{default_settings}
use libp2p_transport_veilid.NodeConfig.Values.{refused}
use libp2p_transport_veilid.NodeConfig.Disk.{
  Disk, WriteFault, no_fault, not_opened, cut_short, file, put_file, write_file, read_file,
  make_directory, node_directory, settings_path, keys_path,
}
use libp2p_transport_veilid.NodeConfig.Disk.Files.{
  file-put_file, file-put_file_other, paths_differ, file-make_directory,
}
use libp2p_transport_veilid.NodeConfig.Keys.{existing_pair, kept_pair, manage_keypair}
use libp2p_transport_veilid.NodeConfig.Lookup.{
  Calls, Special, special, node_id_key, node_id_secret_key, directory_key, node_text, lookup_config,
  node_answer, ensured_answer, read_answer, parsed_answer, found_answer, special_answer,
  ensure_settings, walk,
}

module _ {F : Formats} (calls : Calls F) (id key : Text) where
  -- A write to the file of the keys leaves the settings.
  write_file-settings :
      (fault : WriteFault) (text : Text) (d : Disk)
      → file (write_file fault (keys_path id) text d).0 (settings_path id)
        ≡ file d (settings_path id)
  unfolding write_file
  write_file-settings no_fault text d =
      file-put_file_other d (keys_path id) (settings_path id) text (paths_differ id)
  write_file-settings (not_opened e) text d = refl
  write_file-settings (cut_short n e) text d =
      file-put_file_other d (keys_path id) (settings_path id) (take n text) (paths_differ id)

  kept_pair-settings :
      (d : Disk) (existing generated : Option F.KeyPair)
      → file (kept_pair F calls.keys id d existing generated).0 (settings_path id)
        ≡ file d (settings_path id)
  kept_pair-settings d (some k) generated = refl
  kept_pair-settings d none (some k) = write_file-settings calls.keys.write (F.pair_to_string k) d
  kept_pair-settings d none none = refl

  manage_keypair-settings :
      (d : Disk)
      → file (manage_keypair F calls.keys calls.generated id d).0 (settings_path id)
        ≡ file d (settings_path id)
  unfolding manage_keypair
  manage_keypair-settings d =
      let e = make_directory calls.keys.create_dir_all (node_directory id) d in
      kept_pair-settings e (existing_pair F calls.keys id e) calls.generated
      ∙ file-make_directory calls.keys.create_dir_all (node_directory id) (settings_path id) d

  special_answer-settings :
      (d : Disk) (o : Option Special)
      → file (special_answer F calls id key d o).0 (settings_path id) ≡ file d (settings_path id)
  special_answer-settings d none = refl
  special_answer-settings d (some node_id_key) = manage_keypair-settings d
  special_answer-settings d (some node_id_secret_key) = manage_keypair-settings d
  special_answer-settings d (some (directory_key leaf)) = refl

  found_answer-settings :
      (d : Disk) (o : Option (Option F.Value))
      → file (found_answer F calls id key d o).0 (settings_path id) ≡ file d (settings_path id)
  found_answer-settings d none = refl
  found_answer-settings d (some none) = special_answer-settings d (special key)
  found_answer-settings d (some (some v)) = refl

  pub parsed_answer-settings :
      (d : Disk) (o : F.Value ⊎ Text)
      → file (parsed_answer F calls id key d o).0 (settings_path id) ≡ file d (settings_path id)
  parsed_answer-settings d (inl value) =
      found_answer-settings d (walk F (split b'.' key) (some value))
  parsed_answer-settings d (inr e) = refl

  read_answer-settings :
      (d : Disk) (o : Option Text)
      → file (read_answer F calls id key d o).0 (settings_path id) ≡ file d (settings_path id)
  read_answer-settings d none = refl
  read_answer-settings d (some toml_str) = parsed_answer-settings d (F.parse toml_str)

  -- The settings that there are stay.
  pub ensure_settings-there :
      (d : Disk) (text : Text)
      → file d (settings_path id) ≡ some text
      → ensure_settings F calls.settings (settings_path id) d ≡ (d, none)
  unfolding ensure_settings
  ensure_settings-there d text there = rw (ensure_settings, there) refl

  node_answer-settings :
      (d : Disk) (fault : Option Text) (text : Text)
      → file d (settings_path id) ≡ some text
      → file (node_answer F calls key d (some id) fault).0 (settings_path id) ≡ some text
  node_answer-settings d (some e) text there = there
  node_answer-settings d none text there =
      let e = make_directory none (node_directory id) d in
      let still : file e (settings_path id) ≡ some text =
        file-make_directory none (node_directory id) (settings_path id) d ∙ there in
      ap (λ r. file (ensured_answer F calls id key r).0 (settings_path id))
        (ensure_settings-there e text still)
      ∙ read_answer-settings e (read_file calls.settings.read_to_string (settings_path id) e)
      ∙ still

  -- The first lookup, of which the write stops after some bytes.
  ensure_settings-cut_short :
      (d : Disk) (n : ℕ) (err : Text)
      → file d (settings_path id) ≡ none
      → calls.settings.write ≡ cut_short n err
      → ensure_settings F calls.settings (settings_path id) d ≡ (
        put_file d (settings_path id) (take n default_settings),
        some (codes "Failed to write default settings to settings.toml: " ++ err),
      )
  unfolding ensure_settings write_file
  ensure_settings-cut_short d n err absent stops = rw (ensure_settings, absent, stops) refl

module _ {F : Formats} (node_keys : F.NodeKeys) (id : Text) where
  -- Settings that are in the file stay as they are.
  lookup_config-settings :
      (calls : Calls F) (key text : Text) (d : Disk)
      → node_text (F.peer_id node_keys) ≡ some id
      → file d (settings_path id) ≡ some text
      → file (lookup_config F calls key node_keys d).0 (settings_path id) ≡ some text
  unfolding lookup_config
  lookup_config-settings calls key text d named there =
      ap
        (λ o. file (node_answer F calls key d o calls.settings.create_dir_all).0 (settings_path id))
        named
      ∙ node_answer-settings calls id key d calls.settings.create_dir_all text there

  -- For a node whose peer id is long enough and that has no settings file: when its folder can be
  -- made and the write of the default settings stops after some bytes, the lookup is refused, these
  -- bytes stay in the file, and the next lookup, whatever it meets, does not change them.
  pub lookup_config-cut_short :
      (calls calls' : Calls F) (key key' err : Text) (n : ℕ) (d : Disk)
      → node_text (F.peer_id node_keys) ≡ some id
      → file d (settings_path id) ≡ none
      → calls.settings.create_dir_all ≡ none
      → calls.settings.write ≡ cut_short n err
      → let (e, answer) = lookup_config F calls key node_keys d in
        (answer ≡ refused (codes "Failed to write default settings to settings.toml: " ++ err))
        × (file e (settings_path id) ≡ some (take n default_settings))
        × (file (lookup_config F calls' key' node_keys e).0 (settings_path id)
            ≡ some (take n default_settings))
  unfolding lookup_config
  lookup_config-cut_short calls calls' key key' err n d named absent made stops =
      let e = make_directory none (node_directory id) d in
      let first : lookup_config F calls key node_keys d ≡ (
        put_file e (settings_path id) (take n default_settings),
        refused (codes "Failed to write default settings to settings.toml: " ++ err),
      ) =
        ap (λ o. node_answer F calls key d o calls.settings.create_dir_all) named
        ∙ ap (node_answer F calls key d (some id)) made
        ∙ ap (ensured_answer F calls id key) (
            ensure_settings-cut_short calls id key e n err
              (file-make_directory none (node_directory id) (settings_path id) d ∙ absent) stops) in
      let left : file (lookup_config F calls key node_keys d).0 (settings_path id)
          ≡ some (take n default_settings) =
        ap (λ r. file r.0 (settings_path id)) first
        ∙ file-put_file e (settings_path id) (take n default_settings) in
      (
        ap (λ r. r.1) first,
        left,
        lookup_config-settings calls' key' (take n default_settings)
            (lookup_config F calls key node_keys d).0 named left,
      )

-- ===== src/NodeConfig/Lookup/Repeat.antt =====
-- The parts of a lookup that follow the settings file, called twice.
use libp2p_transport_veilid.Prelude.{
  ◌≡◌, refl, sym, ap, ◌∙◌, true, Option, none, some, ◌⊎◌, inl, inr, arith,
}
use libp2p_transport_veilid.External.{Text}
use libp2p_transport_veilid.Address.{split}
use libp2p_transport_veilid.NodeConfig.{Formats}
use libp2p_transport_veilid.NodeConfig.Values.{
  ConfigValue, answered, node_id_group, node_id_secret_group,
}
use libp2p_transport_veilid.NodeConfig.Disk.{
  Disk, Faults, no_fault, put_file, write_file, make_directory, is_member, node_directory,
}
use libp2p_transport_veilid.NodeConfig.Disk.Files.{make_directory-member}
use libp2p_transport_veilid.NodeConfig.Keys.{returned, manage_keypair, existing_pair, kept_pair}
use libp2p_transport_veilid.NodeConfig.Keys.Kept.{ReadsBack, manage_keypair-again}
use libp2p_transport_veilid.NodeConfig.Lookup.{
  Calls, Special, special, node_id_key, node_id_secret_key, directory_key, parsed_answer,
  found_answer, special_answer, pair_answer, walk,
}
use libp2p_transport_veilid.NodeConfig.Lookup.Typed.{from_pair-answered}

-- Nothing fails at a file.
abbrev pub Works : Faults → Type 0
Works f = (f.create_dir_all ≡ none) × (f.write ≡ no_fault) × (f.read_to_string ≡ none)

-- Nothing fails in a call.
abbrev pub AllWork : {F : Formats} → Calls F → Type 0
AllWork calls = Works calls.settings × Works calls.keys

-- The node's folder is there.
abbrev pub HasFolder : Text → Disk → Type 0
HasFolder id d = is_member (node_directory id) d.directories ≡ true

module _ {F : Formats} (calls : Calls F) (id : Text) where
  kept_pair-directories :
      (faults : Faults) (d : Disk) (existing generated : Option F.KeyPair)
      → (kept_pair F faults id d existing generated).0.directories ≡ d.directories
  unfolding write_file put_file
  kept_pair-directories faults d (some k) generated = refl
  kept_pair-directories faults d none (some k) = ground arith
  kept_pair-directories faults d none none = refl

  manage_keypair-HasFolder :
      (d : Disk)
      → HasFolder id d
      → HasFolder id (manage_keypair F calls.keys calls.generated id d).0
  unfolding manage_keypair
  manage_keypair-HasFolder d folder =
      let e = make_directory calls.keys.create_dir_all (node_directory id) d in
      ap (is_member (node_directory id)) (
        kept_pair-directories calls.keys e (existing_pair F calls.keys id e) calls.generated
        ∙ ap (λ b. b.directories)
            (make_directory-member calls.keys.create_dir_all (node_directory id) d folder))
      ∙ folder

  special_answer-HasFolder :
      (key : Text) (d : Disk) (o : Option Special)
      → HasFolder id d
      → HasFolder id (special_answer F calls id key d o).0
  special_answer-HasFolder key d none folder = folder
  special_answer-HasFolder key d (some node_id_key) folder = manage_keypair-HasFolder d folder
  special_answer-HasFolder key d (some node_id_secret_key) folder =
      manage_keypair-HasFolder d folder
  special_answer-HasFolder key d (some (directory_key leaf)) folder = folder

module _ {F : Formats} (reads_back : ReadsBack F) (calls calls' : Calls F) (id key : Text)
    (works : AllWork calls) (works' : AllWork calls') where
  -- The pair of the first call is the pair of the second one.
  pair_answer-again :
      (f : F.KeyPair → ConfigValue F) (d : Disk) (a : ConfigValue F)
      → HasFolder id d
      → (pair_answer F f (manage_keypair F calls.keys calls.generated id d)).1 ≡ answered a
      → let e = (manage_keypair F calls.keys calls.generated id d).0 in
        pair_answer F f (manage_keypair F calls'.keys calls'.generated id e) ≡ (e, answered a)
  pair_answer-again f d a folder done =
      let (k, m, same) =
        from_pair-answered f (manage_keypair F calls.keys calls.generated id d).1 a done in
      let e = (manage_keypair F calls.keys calls.generated id d).0 in
      ap (pair_answer F f) (
        manage_keypair-again reads_back calls.keys calls'.keys calls.generated calls'.generated id d
          k works.1.2 works.1.1 m works'.1.2
        ∙ ap (λ b. (b, returned (some k)))
            (make_directory-member calls'.keys.create_dir_all (node_directory id) e
              (manage_keypair-HasFolder calls id d folder)))
      ∙ ap (λ b. (e, answered b)) (sym same)

  special_answer-again :
      (d : Disk) (o : Option Special) (a : ConfigValue F)
      → HasFolder id d
      → (special_answer F calls id key d o).1 ≡ answered a
      → let e = (special_answer F calls id key d o).0 in
        special_answer F calls' id key e o ≡ (e, answered a)
  special_answer-again d none a folder done = cc
  special_answer-again d (some node_id_key) a folder done =
      pair_answer-again (λ k. node_id_group (F.key k)) d a folder done
  special_answer-again d (some node_id_secret_key) a folder done =
      pair_answer-again (λ k. node_id_secret_group (F.secret k)) d a folder done
  special_answer-again d (some (directory_key leaf)) a folder done = ap (λ b. (d, b)) done

  found_answer-again :
      (d : Disk) (o : Option (Option F.Value)) (a : ConfigValue F)
      → HasFolder id d
      → (found_answer F calls id key d o).1 ≡ answered a
      → let e = (found_answer F calls id key d o).0 in
        HasFolder id e × (found_answer F calls' id key e o ≡ (e, answered a))
  found_answer-again d none a folder done = cc
  found_answer-again d (some none) a folder done = (
    special_answer-HasFolder calls id key d (special key) folder,
    special_answer-again d (special key) a folder done,
  )
  found_answer-again d (some (some v)) a folder done = (folder, ap (λ b. (d, b)) done)

  pub parsed_answer-again :
      (d : Disk) (o : F.Value ⊎ Text) (a : ConfigValue F)
      → HasFolder id d
      → (parsed_answer F calls id key d o).1 ≡ answered a
      → let e = (parsed_answer F calls id key d o).0 in
        HasFolder id e × (parsed_answer F calls' id key e o ≡ (e, answered a))
  parsed_answer-again d (inr err) a folder done = cc
  parsed_answer-again d (inl value) a folder done =
      found_answer-again d (walk F (split b'.' key) (some value)) a folder done

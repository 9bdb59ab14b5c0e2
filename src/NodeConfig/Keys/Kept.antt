-- ===== src/NodeConfig/Keys/Kept.antt =====
-- How long a node keeps its key pair.
use libp2p_transport_veilid.Prelude.{◌≡◌, refl, sym, ap, ◌∙◌, Option, none, some}
use libp2p_transport_veilid.External.{Text}
use libp2p_transport_veilid.NodeConfig.{Formats}
use libp2p_transport_veilid.NodeConfig.Disk.{
  Disk, Faults, WriteFault, no_fault, file, write_file, read_file, make_directory, node_directory,
  keys_path,
}
use libp2p_transport_veilid.NodeConfig.Disk.Files.{file-put_file, file-make_directory}
use libp2p_transport_veilid.NodeConfig.Keys.{
  trim, returned, parsed_pair, existing_pair, kept_pair, manage_keypair,
}

-- A key pair's text can be read back, also after `trim`.
abbrev pub ReadsBack : Formats → Type 0
ReadsBack F = (k : F.KeyPair) → F.parse_pair (trim (F.pair_to_string k)) ≡ some k

module _ (F : Formats) where
  existing_pair-file :
      (faults : Faults) (id : Text) (d : Disk)
      → faults.read_to_string ≡ none
      → existing_pair F faults id d ≡ parsed_pair F (file d (keys_path id))
  unfolding existing_pair read_file
  existing_pair-file faults id d reads = rw reads refl

  -- A file that is written holds the text.
  written_file :
      (fault : WriteFault) (path text : Text) (d : Disk)
      → fault ≡ no_fault
      → file (write_file fault path text d).0 path ≡ some text
  unfolding write_file
  written_file fault path text d works = rw works (file-put_file d path text)

  -- A pair that is returned stands in the file.
  kept_pair-file :
      (reads_back : ReadsBack F) (faults : Faults) (id : Text) (d : Disk)
      (existing generated : Option F.KeyPair) (k : F.KeyPair)
      → faults.write ≡ no_fault
      → parsed_pair F (file d (keys_path id)) ≡ existing
      → (kept_pair F faults id d existing generated).1 ≡ returned (some k)
      → parsed_pair F (file (kept_pair F faults id d existing generated).0 (keys_path id)) ≡ some k
  kept_pair-file reads_back faults id d (some j) generated k writes there e = there ∙ cc
  kept_pair-file reads_back faults id d none (some j) k writes there e =
      ap (parsed_pair F) (written_file faults.write (keys_path id) (F.pair_to_string j) d writes)
      ∙ reads_back j
      ∙ cc
  kept_pair-file reads_back faults id d none none k writes there e = cc

  -- The pair of the file is returned, whatever pair could be generated, and the file stays.
  manage_keypair-existing :
      (faults : Faults) (generated : Option F.KeyPair) (id : Text) (d : Disk) (k : F.KeyPair)
      → faults.read_to_string ≡ none
      → parsed_pair F (file d (keys_path id)) ≡ some k
      → manage_keypair F faults generated id d
        ≡ (make_directory faults.create_dir_all (node_directory id) d, returned (some k))
  unfolding manage_keypair
  manage_keypair-existing faults generated id d k reads there =
      let e = make_directory faults.create_dir_all (node_directory id) d in
      ap (λ o. kept_pair F faults id e o generated)
        (existing_pair-file faults id e reads
          ∙ ap (parsed_pair F)
              (file-make_directory faults.create_dir_all (node_directory id) (keys_path id) d)
          ∙ there)

module _ {F : Formats} (reads_back : ReadsBack F) where
  -- Where the text of a key pair can be read back: once `manage_keypair` has returned a pair, with
  -- its file read and written without a failure, every later call that can read the file returns
  -- the same pair, whatever pair could be generated for it, and keeps the directory but for the
  -- node's own folder.
  pub manage_keypair-again :
      (faults faults' : Faults) (generated generated' : Option F.KeyPair) (id : Text) (d : Disk)
      (k : F.KeyPair)
      → faults.read_to_string ≡ none
      → faults.write ≡ no_fault
      → (manage_keypair F faults generated id d).1 ≡ returned (some k)
      → faults'.read_to_string ≡ none
      → manage_keypair F faults' generated' id (manage_keypair F faults generated id d).0 ≡ (
        make_directory faults'.create_dir_all
            (node_directory id)
            (manage_keypair F faults generated id d).0,
        returned (some k),
      )
  unfolding manage_keypair
  manage_keypair-again faults faults' generated generated' id d k reads writes first reads' =
      let e = make_directory faults.create_dir_all (node_directory id) d in
      manage_keypair-existing F faults' generated' id (manage_keypair F faults generated id d).0 k
        reads'
        (kept_pair-file F reads_back faults id e (existing_pair F faults id e) generated k writes
          (sym (existing_pair-file F faults id e reads)) first)

  -- Where the text of a key pair can be read back: when the file holds a pair but cannot be read, a
  -- new pair is generated and the file can be written, the new pair is returned, and so it is by
  -- the next call that can read the file.
  pub manage_keypair-replaces :
      (faults faults' : Faults) (generated' : Option F.KeyPair) (id : Text) (d : Disk)
      (old new : F.KeyPair) (err : Text)
      → parsed_pair F (file d (keys_path id)) ≡ some old
      → faults.read_to_string ≡ some err
      → faults.write ≡ no_fault
      → faults'.read_to_string ≡ none
      → ((manage_keypair F faults (some new) id d).1 ≡ returned (some new))
        × ((manage_keypair F faults' generated' id (manage_keypair F faults (some new) id d).0).1
            ≡ returned (some new))
  unfolding manage_keypair existing_pair read_file
  manage_keypair-replaces faults faults' generated' id d old new err held fails writes reads =
      let e = make_directory faults.create_dir_all (node_directory id) d in
      let lost : existing_pair F faults id e ≡ none = rw fails refl in
      let first : manage_keypair F faults (some new) id d
          ≡ kept_pair F faults id e none (some new) =
        ap (λ o. kept_pair F faults id e o (some new)) lost in
      (
        ap (λ r. r.1) first,
        ap (λ r. (manage_keypair F faults' generated' id r.0).1) first
            ∙ ap (λ r. r.1)
                (manage_keypair-existing F faults' generated' id
                  (kept_pair F faults id e none (some new)).0 new reads
                  (ap (parsed_pair F)
                      (written_file F faults.write (keys_path id) (F.pair_to_string new) e writes)
                    ∙ reads_back new)),
      )

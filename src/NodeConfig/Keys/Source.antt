-- ===== src/NodeConfig/Keys/Source.antt =====
-- Where the pair that `manage_keypair` answers with comes from.
use libp2p_transport_veilid.Prelude.{
  ◌≡◌, refl, sym, ap, ◌∙◌, Option, none, some, ◌⊎◌, inl, inr, arith,
}
use libp2p_transport_veilid.External.{Text}
use libp2p_transport_veilid.NodeConfig.{Formats}
use libp2p_transport_veilid.NodeConfig.Disk.{
  Disk, Faults, file, make_directory, node_directory, keys_path, read_file,
}
use libp2p_transport_veilid.NodeConfig.Disk.Files.{file-make_directory}
use libp2p_transport_veilid.NodeConfig.Keys.{
  returned, manage_keypair, existing_pair, parsed_pair, kept_pair, trim,
}

read_file-same :
    (fault : Option Text) (path : Text) (e d : Disk)
    → file e path ≡ file d path
    → read_file fault path e ≡ read_file fault path d
unfolding read_file
read_file-same none path e d same = same
read_file-same (some err) path e d same = refl

module _ (F : Formats) where
  pair_text :
      (fault o : Option Text) (k : F.KeyPair) (path : Text) (d : Disk)
      → file d path ≡ o
      → parsed_pair F (read_file fault path d) ≡ some k
      → (fault ≡ none) × (text : Text) × (o ≡ some text) × (F.parse_pair (trim text) ≡ some k)
  unfolding read_file
  pair_text none none k path d same e = absurd (ground arith)
  pair_text none (some text) k path d same e = (refl, text, refl, sym (ap (parsed_pair F) same) ∙ e)
  pair_text (some err) o k path d same e = cc

  kept_pair-returned :
      (faults : Faults) (id : Text) (d : Disk) (existing generated : Option F.KeyPair)
      (k : F.KeyPair)
      → (kept_pair F faults id d existing generated).1 ≡ returned (some k)
      → (existing ≡ some k) ⊎ ((existing ≡ none) × (generated ≡ some k))
  kept_pair-returned faults id d (some known) generated k e = inl cc
  kept_pair-returned faults id d none (some made) k e = inr (refl, cc)
  kept_pair-returned faults id d none none k e = cc

module _ (F : Formats) (faults : Faults) (generated : Option F.KeyPair) (id : Text) (d : Disk) where
  -- The pair that the node's key file holds, or, if none can be read from it, the generated one.
  abbrev pub IsNodePair : F.KeyPair → Type 0
  IsNodePair k =
      ((faults.read_to_string ≡ none)
        × (text : Text) × (file d (keys_path id) ≡ some text)
        × (F.parse_pair (trim text) ≡ some k))
      ⊎ ((existing_pair F faults id d ≡ none) × (generated ≡ some k))

  -- Of the disk, only the key file matters.
  pub manage_keypair-IsNodePair :
      (e : Disk) (k : F.KeyPair)
      → file e (keys_path id) ≡ file d (keys_path id)
      → (manage_keypair F faults generated id e).1 ≡ returned (some k)
      → IsNodePair k
  unfolding manage_keypair existing_pair
  manage_keypair-IsNodePair e k same m =
      let dir = make_directory faults.create_dir_all (node_directory id) e in
      let path = keys_path id in
      let read : parsed_pair F (read_file faults.read_to_string path dir)
          ≡ parsed_pair F (read_file faults.read_to_string path d) =
        ap (parsed_pair F) (
          read_file-same faults.read_to_string path dir d
            (file-make_directory faults.create_dir_all (node_directory id) path e ∙ same)) in
      elim (kept_pair-returned F faults id dir
        (parsed_pair F (read_file faults.read_to_string path dir)) generated k m) [
          | inl found ↦
              inl (pair_text F faults.read_to_string (file d path) k path d refl (sym read ∙ found))
          | inr (unknown, made) ↦ inr (sym read ∙ unknown, made)
        ]

-- ===== src/NodeConfig/Keys.antt =====
-- src/settings.rs: `manage_keypair`.
pub mod Kept
pub mod Source
use libp2p_transport_veilid.Prelude.{
  ℕ, Bool, true, false, Option, none, some, List, [], ◌∷◌, is_empty, leb, ◌==◌, ◌&&◌, ◌||◌,
  if◌then◌else◌,
}
use libp2p_transport_veilid.External.{Text}
use libp2p_transport_veilid.NodeConfig.{Formats}
use libp2p_transport_veilid.NodeConfig.Disk.{
  Disk, Faults, file, write_file, read_file, make_directory, node_directory, keys_path,
}

-- `str::trim`: the characters of Unicode's property White_Space.
abbrev pub is_whitespace : ℕ → Bool
is_whitespace c =
    (leb 9 c && leb c 13)
    || c == 32
    || c == 133
    || c == 160
    || c == 5760
    || (leb 8192 c && leb c 8202)
    || c == 8232
    || c == 8233
    || c == 8239
    || c == 8287
    || c == 12288

abbrev pub trim_start : Text → Text
trim_start [] = []
trim_start (c ∷ t) = if is_whitespace c then trim_start t else c ∷ t

abbrev pub trim_end : Text → Text
trim_end [] = []
trim_end (c ∷ t) =
    let rest = trim_end t in if is_empty rest && is_whitespace c then [] else c ∷ rest

unfoldable pub trim : Text → Text
trim t = trim_end (trim_start t)

-- The answer, or the panic of its `todo!()`.
pub data Managed (F : Formats) : Type 0 where
  returned : Option F.KeyPair → Managed F
  panicked : Managed F

module _ (F : Formats) where
  abbrev pub parsed_pair : Option Text → Option F.KeyPair
  parsed_pair none = none
  parsed_pair (some text) = F.parse_pair (trim text)

  -- The pair that the file holds, if it can be read and parsed.
  unfoldable pub existing_pair : Faults → Text → Disk → Option F.KeyPair
  unfolding read_file trim
  existing_pair faults id d = parsed_pair (read_file faults.read_to_string (keys_path id) d)

  -- `generated` is what `generate_keypair` gives if it is called. A write that fails is logged.
  abbrev pub kept_pair :
      Faults → Text → Disk → (existing generated : Option F.KeyPair) → Disk × Managed F
  kept_pair faults id d (some key_pair) generated = (d, returned (some key_pair))
  kept_pair faults id d none (some key_pair) = (
    (write_file faults.write (keys_path id) (F.pair_to_string key_pair) d).0,
    returned (some key_pair),
  )
  kept_pair faults id d none none = (d, panicked)

  unfoldable pub manage_keypair :
      Faults → (generated : Option F.KeyPair) → (id : Text) → Disk → Disk × Managed F
  unfolding existing_pair write_file make_directory
  manage_keypair faults generated id d =
      let e = make_directory faults.create_dir_all (node_directory id) d in
      kept_pair faults id e (existing_pair faults id e) generated

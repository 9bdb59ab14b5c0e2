-- ===== src/NodeConfig/Disk.antt =====
-- The directory that the node's files stand in, as src/settings.rs uses it. What can fail is
-- decided by the environment: an error with its text.
pub mod Files
use libp2p_transport_veilid.Prelude.{
  ℕ, refl, Bool, true, false, Option, none, some, List, [], ◌∷◌, ◌++◌, take, if◌then◌else◌,
  ℕ_discrete,
}
use libp2p_transport_veilid.Prelude.Map.{Map, lookup, insert}
use libp2p_transport_veilid.Prelude.Strings.{codes}
use libp2p_transport_veilid.External.{Text}
use libp2p_transport_veilid.Address.{same_text}

unfoldable pub Text-discrete : Discrete Text
Text-discrete [] [] = yes refl
Text-discrete [] (c ∷ t) = no (λ e. cc)
Text-discrete (b ∷ s) [] = no (λ e. cc)
Text-discrete (b ∷ s) (c ∷ t) =
    let rest = Text-discrete s t in
    elim (ℕ_discrete b c) [
      | yes e ↦ elim rest [ yes f ↦ yes cc | no differ ↦ no (λ same. differ cc) ]
      | no differ ↦ no (λ same. differ cc)
    ]

-- Paths are relative to `PARENT_DIR`.
pub record Disk : Type 0 where
  pub files : Map Text Text
  pub directories : List Text

-- Whether a write fails when the file is opened, or after some bytes.
pub data WriteFault : Type 0 where
  no_fault : WriteFault
  not_opened : Text → WriteFault
  cut_short : (written : ℕ) → Text → WriteFault

-- What a call of each function meets.
pub record Faults : Type 0 where
  pub create_dir_all : Option Text
  pub write : WriteFault
  pub read_to_string : Option Text

abbrev pub working : Faults
working = record { create_dir_all = none; write = no_fault; read_to_string = none }

unfoldable pub file : Disk → Text → Option Text
unfolding lookup Text-discrete
file d path = lookup Text-discrete path d.files

unfoldable pub put_file : Disk → Text → Text → Disk
unfolding insert Text-discrete
put_file d path text = record d { files = insert Text-discrete path text d.files }

-- `File::create` empties the file, and `write_all` fills it; `fs::write` is the two.
unfoldable pub write_file : WriteFault → Text → Text → Disk → Disk × Option (Bool × Text)
unfolding put_file
write_file no_fault path text d = (put_file d path text, none)
write_file (not_opened e) path text d = (d, some (false, e))
write_file (cut_short written e) path text d = (put_file d path (take written text), some (true, e))

-- `fs::read_to_string`.
unfoldable pub read_file : Option Text → Text → Disk → Option Text
unfolding file
read_file none path d = file d path
read_file (some e) path d = none

abbrev pub is_member : Text → List Text → Bool
is_member path [] = false
is_member path (p ∷ ps) = let later = is_member path ps in if same_text p path then true else later

-- `create_dir_all`: nothing, for a directory that is there.
unfoldable pub make_directory : Option Text → Text → Disk → Disk
make_directory none path d =
    if is_member path d.directories then d else record d { directories = path ∷ d.directories }
make_directory (some e) path d = d

abbrev pub node_directory : Text → Text
node_directory id = codes "./.veilid/" ++ id

abbrev pub settings_path : Text → Text
settings_path id = node_directory id ++ codes "/settings"

abbrev pub keys_path : Text → Text
keys_path id = node_directory id ++ codes "/keys"

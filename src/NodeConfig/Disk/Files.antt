-- ===== src/NodeConfig/Disk/Files.antt =====
-- What a write to a file leaves of the directory.
use libp2p_transport_veilid.Prelude.{
  ◌≡◌, ◌≢◌, refl, ap, true, Option, none, some, take, length, length-append, arith, if_neg, ◌∙◌,
}
use libp2p_transport_veilid.Prelude.Map.{lookup, lookup-insert}
use libp2p_transport_veilid.Prelude.Strings.{codes}
use libp2p_transport_veilid.External.{Text}
use libp2p_transport_veilid.Address.Laws.{same_text_refl}
use libp2p_transport_veilid.NodeConfig.Disk.{
  Disk, WriteFault, no_fault, not_opened, cut_short, write_file, Text-discrete, file, put_file,
  make_directory, is_member, node_directory, settings_path, keys_path,
}

pub file-put_file : (d : Disk) (path text : Text) → file (put_file d path text) path ≡ some text
unfolding file put_file
file-put_file d path text = ground (arith, lookup-insert Text-discrete path path text d.files)

pub file-put_file_other :
    (d : Disk) (path other text : Text)
    → path ≢ other
    → file (put_file d path text) other ≡ file d other
unfolding file put_file
file-put_file_other d path other text differ =
    lookup-insert Text-discrete path other text d.files
    ∙ if_neg (Text-discrete path other) differ (some text) (lookup Text-discrete other d.files)

pub file-write_file_other :
    (fault : WriteFault) (path other text : Text) (d : Disk)
    → path ≢ other
    → file (write_file fault path text d).0 other ≡ file d other
unfolding write_file
file-write_file_other no_fault path other text d differ =
    file-put_file_other d path other text differ
file-write_file_other (not_opened e) path other text d differ = refl
file-write_file_other (cut_short n e) path other text d differ =
    file-put_file_other d path other (take n text) differ

-- The two files of a node have different lengths of their names.
pub paths_differ : (id : Text) → keys_path id ≢ settings_path id
paths_differ id e = omega (
  arith,
  ap length e,
  length-append (node_directory id) (codes "/keys"),
  length-append (node_directory id) (codes "/settings"),
)

pub file-make_directory :
    (fault : Option Text) (dir path : Text) (d : Disk)
    → file (make_directory fault dir d) path ≡ file d path
unfolding file make_directory
file-make_directory none dir path d = ground arith
file-make_directory (some e) dir path d = refl

-- A directory that is there stays as it is.
pub make_directory-member :
    (fault : Option Text) (dir : Text) (d : Disk)
    → is_member dir d.directories ≡ true
    → make_directory fault dir d ≡ d
unfolding make_directory
make_directory-member none dir d e = rw e refl
make_directory-member (some err) dir d e = refl

pub member-make_directory :
    (dir : Text) (d : Disk) → is_member dir (make_directory none dir d).directories ≡ true
unfolding make_directory
member-make_directory dir d = ground (arith, same_text_refl dir)

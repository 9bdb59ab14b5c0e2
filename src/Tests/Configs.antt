-- ===== src/Tests/Configs.antt =====
-- The configuration of a node whose settings have two values, with keys as in Demo.
use libp2p_transport_veilid.Prelude.{
  ℕ, ◌<◌, ◌^◌, ◌≡◌, ◌↔◌, inl, refl, Bool, true, false, Option, none, some, [], ◌∷◌, ◌++◌, take,
  if◌then◌else◌, ℕ_discrete,
}
use libp2p_transport_veilid.Prelude.Strings.{codes}
use libp2p_transport_veilid.External.{Text}
use libp2p_transport_veilid.Address.{same_text, split}
use libp2p_transport_veilid.NodeConfig.{ℤ, pos, Formats}
use libp2p_transport_veilid.NodeConfig.Table.{ValueType, u32_type, u8_type, get_value_type}
use libp2p_transport_veilid.NodeConfig.Defaults.{default_settings}
use libp2p_transport_veilid.NodeConfig.Values.{u32, u8, node_id_group, answered, refused, typed}
use libp2p_transport_veilid.NodeConfig.Values.Types.{InRange, typed-InRange}
use libp2p_transport_veilid.NodeConfig.Disk.{
  Disk, Faults, cut_short, working, file, settings_path, keys_path,
}
use libp2p_transport_veilid.NodeConfig.Keys.{trim, returned, manage_keypair}
use libp2p_transport_veilid.NodeConfig.Keys.Kept.{ReadsBack, manage_keypair-replaces}
use libp2p_transport_veilid.NodeConfig.Lookup.{Calls, Special, special, lookup_config, walk}
use libp2p_transport_veilid.NodeConfig.Lookup.Typed.{Describes, lookup_config-Describes}
use libp2p_transport_veilid.NodeConfig.Lookup.Files.{lookup_config-cut_short}
use libp2p_transport_veilid.NodeConfig.Lookup.Repeat.{AllWork}
use libp2p_transport_veilid.NodeConfig.Lookup.Again.{lookup_config-again}
use libp2p_transport_veilid.NodeConfig.Lookup.Entries.{lookup_config-entry}
use libp2p_transport_veilid.Tests.Demo.{print_key, read_key}

-- A number, or the entries of a table.
data Toml : Type 0 where
  number : ℤ → Toml
  nothing : Toml
  entry : Text → Toml → Toml → Toml

abbrev get : Toml → Text → Option Toml
get (number i) key = none
get nothing key = none
get (entry k v rest) key = let later = get rest key in if same_text k key then some v else later

abbrev as_integer : Toml → Option ℤ
as_integer (number i) = some i
as_integer _ = none

abbrev large : Toml
large = number (pos 5_000_000_000)

abbrev document : Toml
document =
    entry (codes "network")
      (entry (codes "routing_table") nothing
        (entry (codes "hole_punch_receipt_time_ms") large nothing))
      nothing

abbrev formats : Formats
formats = record {
  Value = Toml;
  parse = λ t. inl document;
  get = get;
  as_str = λ v. none;
  as_bool = λ v. none;
  as_integer = as_integer;
  as_array = λ v. none;
  CryptoKind = Bool;
  crypto_kind = read_key;
  NodeKeys = Bool;
  peer_id = λ k. codes "12D3KooWaaaaaaaaaaaaaaaaaaaaaaaaaaaaaaaaaaaaa" ++ print_key k;
  KeyPair = Bool;
  PublicKey = Bool;
  SecretKey = Bool;
  parse_pair = read_key;
  pair_to_string = print_key;
  key = λ k. k;
  secret = λ k. k;
}

formats-ReadsBack : ReadsBack formats
unfolding trim
formats-ReadsBack true = refl
formats-ReadsBack false = refl

abbrev empty : Disk
empty = record { files = []; directories = [] }

-- A call that meets no failure.
abbrev calls : Bool → Calls formats
calls generated = record { settings = working; keys = working; generated = some generated }

calls-AllWork : (k : Bool) → AllWork (calls k)
calls-AllWork k = ((refl, refl, refl), (refl, refl, refl))

abbrev id : Text
id = b'a' ∷ b'T' ∷ []

abbrev number_key : Text
number_key = codes "network.hole_punch_receipt_time_ms"

abbrev id_key : Text
id_key = codes "network.routing_table.node_id"

lookup_config-Describes_example :
    Describes formats (calls true) true empty id_key (node_id_group true)
unfolding lookup_config trim ℕ_discrete
lookup_config-Describes_example =
    lookup_config-Describes (calls true) true empty id_key (node_id_group true) refl

typed-InRange_example :
    ((n : ℕ) × (typed {F = formats} u32_type large ≡ answered (u32 n))
      × (n < 2 ^ 32)
      × ((pos n ≡ pos 5_000_000_000) ↔ InRange 32 (pos 5_000_000_000)))
    × ((n : ℕ) × (typed {F = formats} u8_type large ≡ answered (u8 n))
        × (n < 2 ^ 8)
        × ((pos n ≡ pos 5_000_000_000) ↔ InRange 8 (pos 5_000_000_000)))
typed-InRange_example = typed-InRange large (pos 5_000_000_000) refl

-- The second call would generate another pair.
lookup_config-again_example :
    let d = (lookup_config formats (calls true) id_key true empty).0 in
    lookup_config formats (calls false) id_key true d ≡ (d, answered (node_id_group true))
unfolding lookup_config trim ℕ_discrete
lookup_config-again_example =
    lookup_config-again formats-ReadsBack (calls true) (calls false) id_key true empty
      (node_id_group true) (calls-AllWork true) (calls-AllWork false) refl

-- The file holds a pair, and reading it fails once.
abbrev unreadable : Faults
unreadable = record working { read_to_string = some (codes "busy") }

abbrev kept : Disk
kept = record empty { files = (keys_path id, print_key true) ∷ [] }

manage_keypair-replaces_example :
    ((manage_keypair formats unreadable (some false) id kept).1 ≡ returned (some false))
    × ((manage_keypair formats working none id
          (manage_keypair formats unreadable (some false) id kept).0).1
        ≡ returned (some false))
unfolding file trim ℕ_discrete
manage_keypair-replaces_example =
    manage_keypair-replaces formats-ReadsBack unreadable working none id kept true false
      (codes "busy") refl refl refl refl

-- The disk is full after three bytes.
abbrev full : Calls formats
full = record (calls true) { settings = record working { write = cut_short 3 (codes "full") } }

lookup_config-cut_short_example :
    let (e, answer) = lookup_config formats full number_key true empty in
    (answer ≡ refused (codes "Failed to write default settings to settings.toml: " ++ codes "full"))
    × (file e (settings_path id) ≡ some (take 3 default_settings))
    × (file (lookup_config formats (calls true) id_key true e).0 (settings_path id)
        ≡ some (take 3 default_settings))
unfolding file ℕ_discrete
lookup_config-cut_short_example =
    lookup_config-cut_short true id full (calls true) number_key id_key (codes "full") 3 empty refl
      refl refl refl

abbrev settled : Disk
settled = record empty { files = (settings_path id, []) ∷ [] }

lookup_config-entry_example :
    ((ty : ValueType)
      → get_value_type number_key ≡ some ty
      → (lookup_config formats (calls true) number_key true settled).1 ≡ typed ty large)
    × ((k : Special)
        → special number_key ≡ some k
        → (lookup_config formats (calls true) number_key true settled).1
          ≡ refused (codes "get_value_type | key not found '" ++ (number_key ++ codes "'")))
unfolding file walk split ℕ_discrete
lookup_config-entry_example =
    lookup_config-entry (calls true) id number_key [] document large true settled
      (calls-AllWork true) refl refl refl refl

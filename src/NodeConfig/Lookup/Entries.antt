-- ===== src/NodeConfig/Lookup/Entries.antt =====
-- The answer for a key, from what the settings file has for it.
use libp2p_transport_veilid.Prelude.{
  ◌≡◌, refl, sym, ap, ◌∙◌, subst, none, some, List, [], ◌∷◌, All, inl, inr, ◌++◌, Bool-cases,
}
use libp2p_transport_veilid.Prelude.Strings.{codes}
use libp2p_transport_veilid.External.{Text}
use libp2p_transport_veilid.Address.{same_text, split}
use libp2p_transport_veilid.Address.Laws.{same_text→≡}
use libp2p_transport_veilid.NodeConfig.{Formats}
use libp2p_transport_veilid.NodeConfig.Table.{ValueType, get_value_type}
use libp2p_transport_veilid.NodeConfig.Values.{refused, typed}
use libp2p_transport_veilid.NodeConfig.Disk.{
  Disk, file, make_directory, node_directory, settings_path,
}
use libp2p_transport_veilid.NodeConfig.Disk.Files.{file-make_directory}
use libp2p_transport_veilid.NodeConfig.Lookup.{
  Calls, Special, special, special_keys, find_special, node_text, lookup_config, node_answer,
  parsed_answer, found_answer, typed_answer, walk, ensured_answer,
}
use libp2p_transport_veilid.NodeConfig.Lookup.Files.{ensure_settings-there}
use libp2p_transport_veilid.NodeConfig.Lookup.Repeat.{AllWork}
use libp2p_transport_veilid.NodeConfig.Lookup.Again.{made_folder, read_settings}

-- The table lacks the keys that the module answers itself.
special_keys_lacking : All (λ e. get_value_type e.0 ≡ none) special_keys
unfolding get_value_type special_keys
special_keys_lacking = (refl, (refl, (refl, (refl, (refl, tt)))))

find_special-get_value_type :
    (table : List (Text × Special)) (key : Text) (k : Special)
    → All (λ e. get_value_type e.0 ≡ none) table
    → find_special table key ≡ some k
    → get_value_type key ≡ none
unfolding find_special
find_special-get_value_type [] key k lacking e = cc
find_special-get_value_type ((text, j) ∷ rest) key k lacking e =
    elim (Bool-cases (same_text key text)) [
      | inl same ↦ subst (λ t. get_value_type t ≡ none) (sym (same_text→≡ key text same)) lacking.0
      | inr other ↦ find_special-get_value_type rest key k lacking.1 (rw (find_special, other) at e)
    ]

pub special-get_value_type :
    (key : Text) (k : Special) → special key ≡ some k → get_value_type key ≡ none
unfolding special
special-get_value_type key k e =
    find_special-get_value_type special_keys key k special_keys_lacking e

module _ {F : Formats} (calls : Calls F) (id key text : Text) (value v : F.Value)
    (works : AllWork calls) where
  -- A value for the key is converted as the table says.
  lookup-found :
      (d : Disk)
      → file d (settings_path id) ≡ some text
      → F.parse text ≡ inl value
      → walk F (split b'.' key) (some value) ≡ some (some v)
      → (node_answer F calls key d (some id) calls.settings.create_dir_all).1
        ≡ typed_answer F key (get_value_type key) v
  lookup-found d there parsed found =
      let e = make_directory none (node_directory id) d in
      let still = file-make_directory none (node_directory id) (settings_path id) d ∙ there in
      ap (λ r. r.1)
        (made_folder calls id key works d
          ∙ ap (ensured_answer F calls id key) (ensure_settings-there calls id key e text still)
          ∙ read_settings calls id key works e text still
          ∙ ap (parsed_answer F calls id key e) parsed
          ∙ ap (found_answer F calls id key e) found)

-- A settings file that parses and has the value `v` for the key.
module _ {F : Formats} (calls : Calls F) (id key text : Text) (value v : F.Value)
    (node_keys : F.NodeKeys) (d : Disk) where
  -- Where no call fails and the settings file has a value for the key: the answer for a key of the
  -- table is the value converted to the table's type, and each of the five keys that the module
  -- would answer itself if the file did not have them is refused.
  pub lookup_config-entry :
      AllWork calls
      → node_text (F.peer_id node_keys) ≡ some id
      → file d (settings_path id) ≡ some text
      → F.parse text ≡ inl value
      → walk F (split b'.' key) (some value) ≡ some (some v)
      → ((ty : ValueType)
          → get_value_type key ≡ some ty
          → (lookup_config F calls key node_keys d).1 ≡ typed ty v)
        × ((k : Special)
            → special key ≡ some k
            → (lookup_config F calls key node_keys d).1
              ≡ refused (codes "get_value_type | key not found '" ++ (key ++ codes "'")))
  unfolding lookup_config
  lookup_config-entry works named there parsed found =
      let answer =
        ap (λ i. (node_answer F calls key d i calls.settings.create_dir_all).1) named
        ∙ lookup-found calls id key text value v works d there parsed found in
      (
        λ ty known. answer ∙ ap (λ o. typed_answer F key o v) known,
        λ k known. answer ∙ ap (λ o. typed_answer F key o v) (special-get_value_type key k known),
      )

-- ===== src/NodeConfig/Lookup/Again.antt =====
-- Two lookups of the same key.
use libp2p_transport_veilid.Prelude.{
  ◌≡◌, refl, sym, ap, ◌∙◌, subst, none, some, inl, inr, Option-cases,
}
use libp2p_transport_veilid.External.{Text}
use libp2p_transport_veilid.NodeConfig.{Formats}
use libp2p_transport_veilid.NodeConfig.Defaults.{default_settings}
use libp2p_transport_veilid.NodeConfig.Values.{ConfigValue, Answer, answered}
use libp2p_transport_veilid.NodeConfig.Disk.{
  Disk, file, put_file, write_file, read_file, make_directory, node_directory, settings_path,
}
use libp2p_transport_veilid.NodeConfig.Disk.Files.{
  file-put_file, file-make_directory, make_directory-member, member-make_directory,
}
use libp2p_transport_veilid.NodeConfig.Keys.Kept.{ReadsBack}
use libp2p_transport_veilid.NodeConfig.Lookup.{
  Calls, node_text, lookup_config, node_answer, ensured_answer, read_answer, parsed_answer,
  ensure_settings,
}
use libp2p_transport_veilid.NodeConfig.Lookup.Repeat.{AllWork, HasFolder, parsed_answer-again}
use libp2p_transport_veilid.NodeConfig.Lookup.Files.{ensure_settings-there, parsed_answer-settings}

-- What a call that meets no failure opens: the folder, and the settings file with a text.
pub record Opened {F : Formats} (calls : Calls F) (id key : Text) (d : Disk) : Type 0 where
  pub disk : Disk
  pub text : Text
  pub folder : HasFolder id disk
  pub there : file disk (settings_path id) ≡ some text
  pub rest :
      node_answer F calls key d (some id) calls.settings.create_dir_all
      ≡ parsed_answer F calls id key disk (F.parse text)

module _ {F : Formats} (calls : Calls F) (id key : Text) (works : AllWork calls) where
  pub read_settings :
      (d : Disk) (text : Text)
      → file d (settings_path id) ≡ some text
      → ensured_answer F calls id key (d, none) ≡ parsed_answer F calls id key d (F.parse text)
  unfolding read_file
  read_settings d text there = ap (read_answer F calls id key d) (
      let t : read_file calls.settings.read_to_string (settings_path id) d ≡ some text =
        rw (works.0.2) there in
      t)

  pub made_folder :
      (d : Disk)
      → node_answer F calls key d (some id) calls.settings.create_dir_all
        ≡ ensured_answer F calls id key (
            ensure_settings F calls.settings
              (settings_path id)
              (make_directory none (node_directory id) d))
  made_folder d = rw works.0.0 refl

  -- With the settings file there.
  pub open_there :
      (d : Disk) (text : Text) → file d (settings_path id) ≡ some text → Opened calls id key d
  open_there d text there =
      let e = make_directory none (node_directory id) d in
      let still = file-make_directory none (node_directory id) (settings_path id) d ∙ there in
      record {
        disk = e;
        text = text;
        folder = member-make_directory (node_directory id) d;
        there = still;
        rest =
            made_folder d
            ∙ ap (ensured_answer F calls id key) (ensure_settings-there calls id key e text still)
            ∙ read_settings e text still;
      }

  -- With the folder there too.
  pub open_again :
      (d : Disk) (text : Text)
      → HasFolder id d
      → file d (settings_path id) ≡ some text
      → node_answer F calls key d (some id) calls.settings.create_dir_all
        ≡ parsed_answer F calls id key d (F.parse text)
  open_again d text folder there =
      made_folder d
      ∙ ap
          (λ b.
            ensured_answer F calls id key (ensure_settings F calls.settings (settings_path id) b))
          (make_directory-member none (node_directory id) d folder)
      ∙ ap (ensured_answer F calls id key) (ensure_settings-there calls id key d text there)
      ∙ read_settings d text there

  open_new : (d : Disk) → file d (settings_path id) ≡ none → Opened calls id key d
  unfolding ensure_settings write_file put_file
  open_new d absent =
      let e = make_directory none (node_directory id) d in
      let new = put_file e (settings_path id) default_settings in
      let made : ensure_settings F calls.settings (settings_path id) e ≡ (new, none) =
        rw
          (
            ensure_settings,
            file-make_directory none (node_directory id) (settings_path id) d ∙ absent,
            works.0.1,
          )
          refl in
      let still = file-put_file e (settings_path id) default_settings in
      record {
        disk = new;
        text = default_settings;
        folder = member-make_directory (node_directory id) d;
        there = still;
        rest =
            made_folder d
            ∙ ap (ensured_answer F calls id key) made
            ∙ read_settings new default_settings still;
      }

  pub opened : (d : Disk) → Opened calls id key d
  opened d = elim (Option-cases (file d (settings_path id))) [
    | inl absent ↦ open_new d absent
    | inr (text, there) ↦ open_there d text there
  ]

module _ {F : Formats} (reads_back : ReadsBack F) (calls calls' : Calls F) (key : Text)
    (node_keys : F.NodeKeys) where
  -- Where the text of a key pair can be read back and no call fails at a file: once a lookup has
  -- answered with a value, looking up the same key again gives the same value and changes nothing
  -- on the disk, whatever key pair could be generated then.
  pub lookup_config-again :
      (d : Disk) (a : ConfigValue F)
      → AllWork calls
      → AllWork calls'
      → (lookup_config F calls key node_keys d).1 ≡ answered a
      → let e = (lookup_config F calls key node_keys d).0 in
        lookup_config F calls' key node_keys e ≡ (e, answered a)
  unfolding lookup_config
  lookup_config-again d a works works' done =
      elim (Option-cases (node_text (F.peer_id node_keys))) [
        | inl short ↦
            let no : Answer.panicked ≡ answered a =
              ap (λ i. (node_answer F calls key d i calls.settings.create_dir_all).1) (sym short)
              ∙ done in
            cc
        | inr (id, named) ↦
            let o = opened calls id key works d in
            let answer = parsed_answer F calls id key o.disk (F.parse o.text) in
            let first : lookup_config F calls key node_keys d ≡ answer =
              ap (λ i. node_answer F calls key d i calls.settings.create_dir_all) named ∙ o.rest in
            let (folder, again) =
              parsed_answer-again reads_back calls calls' id key works works' o.disk
                (F.parse o.text) a o.folder (ap (λ r. r.1) (sym first) ∙ done) in
            let there = parsed_answer-settings calls id key o.disk (F.parse o.text) ∙ o.there in
            subst (λ r. lookup_config F calls' key node_keys r.0 ≡ (r.0, answered a)) (sym first)
              (ap (λ i. node_answer F calls' key answer.0 i calls'.settings.create_dir_all) named
                ∙ open_again calls' id key works' answer.0 o.text folder there
                ∙ again)
      ]

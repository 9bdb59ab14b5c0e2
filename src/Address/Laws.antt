-- ===== src/Address/Laws.antt =====
-- The order of addresses, and their text form.
use libp2p_transport_veilid.Prelude.{
  ℕ, ◌≡◌, ◌↔◌, refl, sym, ap, ◌∙◌, Bool, true, false, Option, none, some, [], ◌∷◌, ◌++◌, ◌==◌,
  arith, if◌then◌else◌,
}
use libp2p_transport_veilid.External.{External, Text}
use libp2p_transport_veilid.Address.{
  Address, DhtStatus, safe, unsafe, missing, unix_safe, unix_unsafe, split, to_multiaddr,
  try_from_multiaddr, try_from_string, Ordering, less, equal, greater, cmp, cmp_text, key_string,
  same_text,
}

abbrev pub flip : Ordering → Ordering
flip less = greater
flip equal = equal
flip greater = less

cmp_text-flip : (s t : Text) → cmp_text t s ≡ flip (cmp_text s t)
cmp_text-flip [] [] = refl
cmp_text-flip [] (c ∷ t) = refl
cmp_text-flip (b ∷ s) [] = refl
cmp_text-flip (b ∷ s) (c ∷ t) = ground (arith, cmp_text-flip s t)

cmp_text-equal : (s t : Text) → cmp_text s t ≡ equal → s ≡ t
cmp_text-equal [] [] h = refl
cmp_text-equal [] (c ∷ t) h = cc
cmp_text-equal (b ∷ s) [] h = cc
cmp_text-equal (b ∷ s) (c ∷ t) h = ground (arith, cmp_text-equal s t)

cmp_text_refl : (s : Text) → cmp_text s s ≡ equal
cmp_text_refl [] = refl
cmp_text_refl (b ∷ s) = ground (arith, cmp_text_refl s)

-- Addresses compare by their keys' texts.
pub cmp-flip :
    {X : External} (a b : Address X)
    → (cmp b a ≡ flip (cmp a b)) × ((cmp a b ≡ equal) ↔ (key_string a ≡ key_string b))
unfolding cmp
cmp-flip a b =
    let s = key_string a in
    let t = key_string b in
    (cmp_text-flip s t, (cmp_text-equal s t, λ e. ap (cmp_text s) (sym e) ∙ cmp_text_refl s))

pub same_text_refl : (t : Text) → same_text t t ≡ true
same_text_refl [] = refl
same_text_refl (c ∷ t) = ground (arith, same_text_refl t)

pub same_text→≡ : (s t : Text) → same_text s t ≡ true → s ≡ t
same_text→≡ [] [] e = refl
same_text→≡ [] (c ∷ t) e = cc
same_text→≡ (b ∷ s) [] e = cc
same_text→≡ (b ∷ s) (c ∷ t) e = ground (arith, same_text→≡ s t)

-- A text with no separator is one piece.
abbrev pub lacks : ℕ → Text → Bool
lacks sep [] = true
lacks sep (c ∷ t) = if c == sep then false else lacks sep t

split-lacks : (sep : ℕ) (t : Text) → lacks sep t ≡ true → split sep t ≡ t ∷ []
unfolding split
split-lacks sep [] h = refl
split-lacks sep (c ∷ t) h = ground (arith, split-lacks sep t)

-- What a text form keeps of an address: its kind and its key.
abbrev pub only_key : (X : External) → Address X → Address X
only_key X (safe key keys status) = safe key none missing
only_key X (unsafe key) = unsafe key

-- The order reads a side's own address and the address that the other side knows alike.
pub cmp-only_key : {X : External} (a b : Address X) → cmp (only_key X a) b ≡ cmp a b
unfolding cmp
cmp-only_key (safe key keys status) b = refl
cmp-only_key (unsafe key) b = refl

module _ {X : External}
    (record_text : (k k' : X.RecordKey)
      → X.record_key_to_string k ≡ X.record_key_to_string k'
      → k ≡ k')
    (node_text : (n n' : X.NodeId) → X.node_id_to_string n ≡ X.node_id_to_string n' → n ≡ n') where
  -- If different keys have different texts: the two sides of a pair of addresses compare them the
  -- opposite way round; two safe addresses compare as equal exactly when they have the same key,
  -- whatever their owner keys and status, and two unsafe addresses when they have the same key.
  pub cmp_iff :
      (a b : Address X) (k k' : X.RecordKey) (keys keys' : Option X.OwnerKeys)
      (status status' : DhtStatus) (n n' : X.NodeId)
      → (cmp b a ≡ flip (cmp a b))
        × ((cmp {X = X} (safe k keys status) (safe k' keys' status') ≡ equal) ↔ (k ≡ k'))
        × ((cmp {X = X} (unsafe n) (unsafe n') ≡ equal) ↔ (n ≡ n'))
  cmp_iff a b k k' keys keys' status status' n n' =
      let records = (cmp-flip {X = X} (safe k keys status) (safe k' keys' status')).1 in
      let nodes = (cmp-flip {X = X} (unsafe n) (unsafe n')).1 in
      (
        (cmp-flip a b).0,
        (λ e. record_text k k' (records.0 e), λ e. records.1 (ap X.record_key_to_string e)),
        (λ e. node_text n n' (nodes.0 e), λ e. nodes.1 (ap X.node_id_to_string e)),
      )

module _ (X : External) (unprint : (t : Text) → X.multiaddr_to_string (X.parse_multiaddr t) ≡ t)
    (record_key : (k : X.RecordKey)
      → (lacks b':' (X.encode_record_key k) ≡ true)
        × (X.record_key_try_from (X.encode_record_key k) ≡ some k))
    (node_key : (k : X.NodeId)
      → (lacks b':' (X.encode_node_id k) ≡ true)
        × (X.node_id_try_from (X.encode_node_id k) ≡ some k)) where
  -- If a multiaddr's text is the text that it was parsed from, and a key's text has no colon and
  -- decodes to the key, then an address parses from its multiaddr, and from that multiaddr's text,
  -- to the address of the same kind with the same key, and no owner keys or status.
  pub try_from_multiaddr-to_multiaddr :
      (a : Address X)
      → (try_from_multiaddr X (to_multiaddr a) ≡ some (only_key X a))
        × (try_from_string X (X.multiaddr_to_string (to_multiaddr a)) ≡ some (only_key X a))
  unfolding try_from_multiaddr try_from_string to_multiaddr split
  try_from_multiaddr-to_multiaddr (safe key keys status) =
      let e = unprint (unix_safe ++ b':' ∷ X.encode_record_key key) in
      let one = split-lacks b':' (X.encode_record_key key) (record_key key).0 in
      let back = (record_key key).1 in (rw (e, one, back) refl, rw (e, one, back) refl)
  try_from_multiaddr-to_multiaddr (unsafe key) =
      let e = unprint (unix_unsafe ++ b':' ∷ X.encode_node_id key) in
      let one = split-lacks b':' (X.encode_node_id key) (node_key key).0 in
      let back = (node_key key).1 in (rw (e, one, back) refl, rw (e, one, back) refl)

-- ===== src/Address.antt =====
-- src/address.rs: the address of a node, its text form, its order, and its target. A call of the
-- network API is an argument: the answers that it gives during the operation.
pub mod Laws
use libp2p_transport_veilid.Prelude.{
  ℕ, Bool, true, false, Option, none, some, List, [], ◌∷◌, ◌++◌, ltb, ◌==◌, ◌&&◌, if◌then◌else◌,
  ℕ_discrete,
}
use libp2p_transport_veilid.External.{External, Bytes, Text}

-- `DHTStatus`; `missing` is its `None`. A time of day is in nanoseconds since the epoch.
pub data DhtStatus : Type 0 where
  missing : DhtStatus
  active : ℕ → DhtStatus

pub data Address (X : External) : Type 0 where
  safe : X.RecordKey → Option X.OwnerKeys → DhtStatus → Address X
  unsafe : X.NodeId → Address X

-- `veilid_core::Target`.
pub data Target (X : External) : Type 0 where
  node_id : X.NodeId → Target X
  private_route : X.RouteId → Target X

unfoldable pub Address-discrete : (X : External) → Discrete (Address X)
Address-discrete X =
    hlevel (X.record_key_discrete, X.owner_keys_discrete, X.node_id_discrete, ℕ_discrete)

-- "/unix/s" and "/unix/us", as `parts[0]` is compared with them.
abbrev pub unix_safe : Text
unix_safe = b'/' ∷ b'u' ∷ b'n' ∷ b'i' ∷ b'x' ∷ b'/' ∷ b's' ∷ []

abbrev pub unix_unsafe : Text
unix_unsafe = b'/' ∷ b'u' ∷ b'n' ∷ b'i' ∷ b'x' ∷ b'/' ∷ b'u' ∷ b's' ∷ []

abbrev pub same_text : Text → Text → Bool
same_text [] [] = true
same_text [] (c ∷ t) = false
same_text (b ∷ s) [] = false
same_text (b ∷ s) (c ∷ t) = if b == c then same_text s t else false

-- `split(':')`: the piece that is open, and the pieces after it.
abbrev pub extend_head : ℕ → List Text → List Text
extend_head c [] = (c ∷ []) ∷ []
extend_head c (p ∷ ps) = (c ∷ p) ∷ ps

unfoldable pub split : ℕ → Text → List Text
split sep [] = [] ∷ []
split sep (c ∷ t) = let rest = split sep t in if c == sep then [] ∷ rest else extend_head c rest

module _ {X : External} where
  unfoldable pub new_unsafe : X.NodeId → Address X
  new_unsafe key = unsafe key

  unfoldable pub to_multiaddr : Address X → X.Multiaddr
  to_multiaddr (safe key keys status) =
      X.parse_multiaddr (unix_safe ++ b':' ∷ X.encode_record_key key)
  to_multiaddr (unsafe key) = X.parse_multiaddr (unix_unsafe ++ b':' ∷ X.encode_node_id key)

abbrev pub made_safe : (X : External) → Option X.RecordKey → Option (Address X)
made_safe X none = none
made_safe X (some key) = some (safe key none missing)

abbrev pub made_unsafe : (X : External) → Option X.NodeId → Option (Address X)
made_unsafe X none = none
made_unsafe X (some key) = some (unsafe key)

-- The `match` on the parts: two of them, and a kind that is known.
abbrev pub from_parts : (X : External) → List Text → Option (Address X)
from_parts X [] = none
from_parts X (kind ∷ []) = none
from_parts X (kind ∷ key ∷ []) =
    if same_text kind unix_safe
    then made_safe X (X.record_key_try_from key)
    else if same_text kind unix_unsafe
    then made_unsafe X (X.node_id_try_from key)
    else none
from_parts X (kind ∷ key ∷ more ∷ rest) = none

-- `TryFrom<String>`; its error is only a text, so `none` stands for it.
unfoldable pub try_from_string : (X : External) → Text → Option (Address X)
unfolding split
try_from_string X addr_str = from_parts X (split b':' addr_str)

-- `TryFrom<Multiaddr>` has the same body, over `m.to_string()`.
unfoldable pub try_from_multiaddr : (X : External) → X.Multiaddr → Option (Address X)
unfolding split
try_from_multiaddr X m = from_parts X (split b':' (X.multiaddr_to_string m))

-- `std::cmp::Ordering`, and the order of texts by their first difference.
pub data Ordering : Type 0 where
  less equal greater : Ordering

abbrev pub cmp_text : Text → Text → Ordering
cmp_text [] [] = equal
cmp_text [] (c ∷ t) = less
cmp_text (b ∷ s) [] = greater
cmp_text (b ∷ s) (c ∷ t) = if ltb b c then less else if ltb c b then greater else cmp_text s t

module _ {X : External} where
  abbrev pub key_string : Address X → Text
  key_string (safe key keys status) = X.record_key_to_string key
  key_string (unsafe key) = X.node_id_to_string key

  unfoldable pub cmp : Address X → Address X → Ordering
  cmp a b = cmp_text (key_string a) (key_string b)

-- What the network API answers while an operation runs; `false` and `none` are its errors. A value
-- of the DHT that is not there is `some none`. A created record has its key and, if its secret is
-- known, its owner's keys.
pub record Api (X : External) : Type 0 where
  pub new_custom_private_route : Option Bytes
  pub routing_context : Bool
  pub default_schema : Bool
  pub create_dht_record : Option (X.RecordKey × Option X.OwnerKeys)
  pub open_dht_record : X.RecordKey → Option X.OwnerKeys → Bool
  pub get_dht_value : X.RecordKey → Option (Option Bytes)
  pub set_dht_value : X.RecordKey → Bytes → Option X.OwnerKeys → Bool
  pub import_remote_private_route : Bytes → Option X.RouteId

module _ {X : External} where
  abbrev pub imported : Option X.RouteId → Option (Target X)
  imported none = none
  imported (some route) = some (private_route route)

  abbrev pub route_of : Api X → Option (Option Bytes) → Option (Target X)
  route_of api none = none
  route_of api (some none) = none
  route_of api (some (some blob)) = imported (api.import_remote_private_route blob)

  unfoldable pub to_target : Api X → Address X → Option (Target X)
  to_target api (unsafe key) = some (node_id key)
  to_target api (safe key keys status) =
      if api.routing_context
      then (if api.open_dht_record key none then route_of api (api.get_dht_value key) else none)
      else none

  abbrev pub published_record :
      Api X → (utc : ℕ) → Bytes → Option (X.RecordKey × Option X.OwnerKeys) → Option (Address X)
  published_record api utc blob none = none
  published_record api utc blob (some (key, none)) = none
  published_record api utc blob (some (key, some owner)) =
      if api.set_dht_value key blob none then some (safe key (some owner) (active utc)) else none

  -- A new private route, whose blob is published under a new record. Every error is one text.
  unfoldable pub new_safe : Api X → (utc : ℕ) → Option (Address X)
  new_safe api utc = elim api.new_custom_private_route [
    | none ↦ none
    | some blob ↦
        if api.routing_context
        then (if api.default_schema
            then published_record api utc blob api.create_dht_record
            else none)
        else none
  ]

  abbrev pub republish : Api X → X.RecordKey → Option X.OwnerKeys → Bytes → Option (Target X)
  republish api key none blob = none
  republish api key (some owner) blob =
      if api.routing_context
        && api.open_dht_record key (some owner)
        && api.set_dht_value key blob (some owner)
      then imported (api.import_remote_private_route blob)
      else none

  -- A new route for an address that this node owns.
  unfoldable pub update_safe : Api X → Address X → Option (Target X)
  update_safe api (safe key keypair status) = elim api.new_custom_private_route [
    | none ↦ none
    | some blob ↦ republish api key keypair blob
  ]
  update_safe api (unsafe key) = none

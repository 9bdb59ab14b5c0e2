-- ===== src/NodeConfig/Values.antt =====
-- src/settings.rs: the last part of `lookup_config`, which turns a TOML value into the value of the
-- type that the table names for its key.
pub mod Types
use libp2p_transport_veilid.Prelude.{ℕ, ◌-◌, ◌%◌, ◌^◌, Bool, Option, none, some, List, [], ◌∷◌}
use libp2p_transport_veilid.Prelude.Strings.{codes}
use libp2p_transport_veilid.External.{Text}
use libp2p_transport_veilid.NodeConfig.{ℤ, pos, negsuc, Formats}
use libp2p_transport_veilid.NodeConfig.Table.{
  ValueType, str_type, bool_type, opt_string_type, u32_type, u8_type, opt_u32_type, vec_string_type,
  vec_four_cc_type,
}

-- The value in the `Box<dyn Any>`. A typed group has one member, of the kind `CRYPTO_KIND`.
pub data ConfigValue (F : Formats) : Type 0 where
  str : Text → ConfigValue F
  bool : Bool → ConfigValue F
  opt_string : Option Text → ConfigValue F
  u32 : ℕ → ConfigValue F
  u8 : ℕ → ConfigValue F
  opt_u32 : Option ℕ → ConfigValue F
  vec_string : List Text → ConfigValue F
  vec_four_cc : List F.CryptoKind → ConfigValue F
  node_id_group : F.PublicKey → ConfigValue F
  node_id_secret_group : F.SecretKey → ConfigValue F

-- `Result<Box<dyn Any>, VeilidAPIError>`, with the error's text, or a panic.
pub data Answer (F : Formats) : Type 0 where
  answered : ConfigValue F → Answer F
  refused : Text → Answer F
  panicked : Answer F

-- `as u32` and `as u8` of an `i64` keep the low bits of its two's complement.
unfoldable pub as_unsigned : (w : ℕ) → ℤ → ℕ
as_unsigned w (pos n) = n % 2 ^ w
as_unsigned w (negsuc n) = (2 ^ w - 1) - n % 2 ^ w

-- A text that is empty counts as none.
abbrev pub opt_text : Option Text → Option Text
opt_text none = none
opt_text (some []) = none
opt_text (some (c ∷ t)) = some (c ∷ t)

abbrev pub opt_number : Option ℤ → Option ℕ
opt_number none = none
opt_number (some i) = some (as_unsigned 32 i)

-- `filter_map`: the elements that the function takes.
abbrev pub filter_map {ℓ κ} : {A : Type ℓ} {B : Type κ} → (A → Option B) → List A → List B
filter_map f [] = []
filter_map f (a ∷ tail) =
    let rest = filter_map f tail in elim (f a) [ none ↦ rest | some b ↦ b ∷ rest ]

module _ {F : Formats} where
  abbrev pub expected {ℓ} : {A : Type ℓ} → Text → (A → ConfigValue F) → Option A → Answer F
  expected message f none = refused message
  expected message f (some a) = answered (f a)

  unfoldable pub typed : ValueType → F.Value → Answer F
  unfolding as_unsigned
  typed str_type v = expected (codes "Expected a string value in TOML") str (F.as_str v)
  typed bool_type v = expected (codes "Expected a boolean value in TOML") bool (F.as_bool v)
  typed opt_string_type v = answered (opt_string (opt_text (F.as_str v)))
  typed u32_type v =
      expected (codes "Expected a u32 value in TOML") (λ i. u32 (as_unsigned 32 i)) (F.as_integer v)
  typed u8_type v =
      expected (codes "Expected a u8 value in TOML") (λ i. u8 (as_unsigned 8 i)) (F.as_integer v)
  typed opt_u32_type v = answered (opt_u32 (opt_number (F.as_integer v)))
  typed vec_string_type v =
      expected (codes "Expected an array of strings in TOML")
        (λ vs. vec_string (filter_map F.as_str vs)) (F.as_array v)
  typed vec_four_cc_type v =
      expected (codes "Expected an array of strings for VecFourCC in TOML")
        (λ vs. vec_four_cc (filter_map F.crypto_kind (filter_map F.as_str vs))) (F.as_array v)

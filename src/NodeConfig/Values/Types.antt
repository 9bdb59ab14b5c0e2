-- ===== src/NodeConfig/Values/Types.antt =====
-- Which values the conversion gives, and which integers it keeps.
use native.Mathlib.Nat.{mod-lt, mod-eq_of_lt}
use libp2p_transport_veilid.Prelude.{
  ℕ, zero, suc, ◌<◌, ◌^◌, subst, ap, ◌≡◌, ◌↔◌, refl, Option, none, some, [], ◌∷◌, arith,
}
use libp2p_transport_veilid.External.{Text}
use libp2p_transport_veilid.NodeConfig.{ℤ, pos, negsuc, Formats}
use libp2p_transport_veilid.NodeConfig.Table.{
  ValueType, str_type, bool_type, opt_string_type, u32_type, u8_type, opt_u32_type, vec_string_type,
  vec_four_cc_type,
}
use libp2p_transport_veilid.NodeConfig.Values.{
  ConfigValue, str, bool, opt_string, u32, u8, opt_u32, vec_string, vec_four_cc, Answer, answered,
  as_unsigned, expected, opt_text, opt_number, typed,
}

-- The range of a `w`-bit number.
abbrev pub InRange : (w : ℕ) → ℤ → Type 0
InRange w (pos n) = n < 2 ^ w
InRange w (negsuc n) = ⊥

two_pow_pos : (w : ℕ) → 0 < 2 ^ w
two_pow_pos zero = omega arith
two_pow_pos (suc w) = omega (arith, two_pow_pos w)

pub as_unsigned_lt : (w : ℕ) (i : ℤ) → as_unsigned w i < 2 ^ w
unfolding as_unsigned
as_unsigned_lt w (pos n) = mod-lt n (two_pow_pos w)
as_unsigned_lt w (negsuc n) = omega (arith, two_pow_pos w)

abbrev pos_number : ℤ → ℕ
pos_number (pos n) = n
pos_number (negsuc n) = 0

as_unsigned_iff : (w : ℕ) (i : ℤ) → (pos (as_unsigned w i) ≡ i) ↔ InRange w i
unfolding as_unsigned
as_unsigned_iff w (pos n) = (
  λ e. subst (λ k. k < 2 ^ w) (ap pos_number e) (mod-lt n (two_pow_pos w)),
  λ h. ap pos (mod-eq_of_lt h),
)
as_unsigned_iff w (negsuc n) = (λ e. cc, λ h. absurd h)

module _ {F : Formats} where
  -- A value of the type that the table names. An optional text is never empty.
  abbrev pub HasType : ValueType → ConfigValue F → Type 0
  HasType str_type (str t) = Unit
  HasType bool_type (bool b) = Unit
  HasType opt_string_type (opt_string none) = Unit
  HasType opt_string_type (opt_string (some (c ∷ t))) = Unit
  HasType u32_type (u32 n) = n < 2 ^ 32
  HasType u8_type (u8 n) = n < 2 ^ 8
  HasType opt_u32_type (opt_u32 none) = Unit
  HasType opt_u32_type (opt_u32 (some n)) = n < 2 ^ 32
  HasType vec_string_type (vec_string ts) = Unit
  HasType vec_four_cc_type (vec_four_cc ks) = Unit
  HasType _ _ = ⊥

  answered-has :
      (P : ConfigValue F → Type 0) (b a : ConfigValue F)
      → P b
      → ◌≡◌ {A = Answer F} (answered b) (answered a)
      → P a
  answered-has P b a p e = let same : b ≡ a = cc in subst P same p

  expected-has {ℓ} :
      {A : Type ℓ} (P : ConfigValue F → Type 0) (message : Text) (f : A → ConfigValue F)
      (o : Option A) (a : ConfigValue F)
      → ((b : A) → P (f b))
      → expected message f o ≡ answered a
      → P a
  expected-has P message f none a p e = cc
  expected-has P message f (some b) a p e = answered-has P (f b) a (p b) e

module _ (F : Formats) where
  opt_text-HasType : (o : Option Text) → HasType {F = F} opt_string_type (opt_string (opt_text o))
  opt_text-HasType none = tt
  opt_text-HasType (some []) = tt
  opt_text-HasType (some (c ∷ t)) = tt

  opt_number-HasType : (o : Option ℤ) → HasType {F = F} opt_u32_type (opt_u32 (opt_number o))
  opt_number-HasType none = tt
  opt_number-HasType (some i) = as_unsigned_lt 32 i

module _ {F : Formats} where
  -- The conversion gives a value of the type that it was asked for.
  pub typed-HasType :
      (ty : ValueType) (v : F.Value) (a : ConfigValue F) → typed ty v ≡ answered a → HasType ty a
  unfolding typed
  typed-HasType str_type v a e = expected-has (HasType str_type) _ _ _ a (λ b. tt) e
  typed-HasType bool_type v a e = expected-has (HasType bool_type) _ _ _ a (λ b. tt) e
  typed-HasType opt_string_type v a e =
      answered-has (HasType opt_string_type) _ a (opt_text-HasType F (F.as_str v)) e
  typed-HasType u32_type v a e =
      expected-has (HasType u32_type) _ _ _ a (λ i. as_unsigned_lt 32 i) e
  typed-HasType u8_type v a e = expected-has (HasType u8_type) _ _ _ a (λ i. as_unsigned_lt 8 i) e
  typed-HasType opt_u32_type v a e =
      answered-has (HasType opt_u32_type) _ a (opt_number-HasType F (F.as_integer v)) e
  typed-HasType vec_string_type v a e = expected-has (HasType vec_string_type) _ _ _ a (λ b. tt) e
  typed-HasType vec_four_cc_type v a e = expected-has (HasType vec_four_cc_type) _ _ _ a (λ b. tt) e

  -- A key of the type u32 or u8 with an integer in the file gets a number in the type's range, and
  -- it is the file's integer exactly if that is in the range: any other integer is changed without
  -- an error.
  pub typed-InRange :
      (v : F.Value) (i : ℤ)
      → F.as_integer v ≡ some i
      → ((n : ℕ) × (typed {F = F} u32_type v ≡ answered (u32 n))
          × (n < 2 ^ 32)
          × ((pos n ≡ i) ↔ InRange 32 i))
        × ((n : ℕ) × (typed {F = F} u8_type v ≡ answered (u8 n))
            × (n < 2 ^ 8)
            × ((pos n ≡ i) ↔ InRange 8 i))
  unfolding typed
  typed-InRange v i e = (
    (as_unsigned 32 i, rw e refl, as_unsigned_lt 32 i, as_unsigned_iff 32 i),
    (as_unsigned 8 i, rw e refl, as_unsigned_lt 8 i, as_unsigned_iff 8 i),
  )

-- ===== src/Prelude/Map.antt =====
-- A hash map as an association list; its iteration order is the list's, and no property reads it.
use Prim.Native.Nat.{◌≤◌, ◌<◌}
use mathlib.Core.Path.{◌≡◌}
use mathlib.Core.Logic.{ite}
use mathlib.Core.Bool.{Bool}
use mathlib.Core.Option
use mathlib.Core.Option.{Option, none, some}
use mathlib.Core.List.{List, [], ◌∷◌}
use native.Mathlib.Omega.{arith}
use libp2p_transport_veilid.Prelude.Tests.{if◌then◌else◌}
use libp2p_transport_veilid.Prelude.Lists.{length}

abbrev pub Map {ℓ} : Type ℓ → Type ℓ → Type ℓ
Map K V = List (K × V)

module _ {ℓ} {K V : Type ℓ} (dec : Discrete K) where
  unfoldable pub lookup : K → Map K V → Option V
  lookup k [] = none
  lookup k ((j, v) ∷ m) = ite (dec j k) (some v) (lookup k m)

  unfoldable pub remove : K → Map K V → Map K V
  remove k [] = []
  remove k ((j, v) ∷ m) = ite (dec j k) (remove k m) ((j, v) ∷ remove k m)

  unfoldable pub insert : K → V → Map K V → Map K V
  unfolding remove
  insert k v m = (k, v) ∷ remove k m

  -- `get_mut`, and a write through it.
  unfoldable pub modify : K → (V → V) → Map K V → Map K V
  modify k f [] = []
  modify k f ((j, v) ∷ m) = ite (dec j k) ((j, f v) ∷ modify k f m) ((j, v) ∷ modify k f m)

  -- Removing a key forgets it and nothing else.
  pub lookup-remove :
      (k j : K) (m : Map K V) → lookup j (remove k m) ≡ ite (dec k j) none (lookup j m)
  unfolding lookup remove
  lookup-remove k j [] = ground arith
  lookup-remove k j ((i, v) ∷ m) = ground (arith, lookup-remove k j m)

  -- The last value written under a key is the one read.
  pub lookup-insert :
      (k j : K) (v : V) (m : Map K V)
      → lookup j (insert k v m) ≡ ite (dec k j) (some v) (lookup j m)
  unfolding lookup insert
  lookup-insert k j v m = ground (arith, lookup-remove k j m)

  pub lookup-modify :
      (k j : K) (f : V → V) (m : Map K V)
      → lookup j (modify k f m) ≡ ite (dec k j) (Option.map f (lookup j m)) (lookup j m)
  unfolding lookup modify
  lookup-modify k j f [] = ground arith
  lookup-modify k j f ((i, v) ∷ m) = ground (arith, lookup-modify k j f m)

  pub length-remove_le : (k : K) (m : Map K V) → length (remove k m) ≤ length m
  unfolding remove
  length-remove_le k [] = omega arith
  length-remove_le k ((i, v) ∷ m) = ground (arith, length-remove_le k m)

  -- Removing a key that is there makes the map smaller.
  pub length-remove_lt :
      (k : K) (m : Map K V) (v : V) → lookup k m ≡ some v → length (remove k m) < length m
  unfolding lookup remove
  length-remove_lt k [] v h = ground arith
  length-remove_lt k ((i, w) ∷ m) v h = ground (arith, length-remove_le k m, length-remove_lt k m v)

module _ {ℓ} {K V : Type ℓ} where
  -- `HashMap::retain` with a test on the key.
  unfoldable pub retain : (K → Bool) → Map K V → Map K V
  retain keep [] = []
  retain keep ((j, v) ∷ m) = if keep j then (j, v) ∷ retain keep m else retain keep m

  pub lookup-retain :
      (dec : Discrete K) (keep : K → Bool) (k : K) (m : Map K V)
      → lookup dec k (retain keep m) ≡ (if keep k then lookup dec k m else none)
  unfolding lookup retain
  lookup-retain dec keep k [] = ground arith
  lookup-retain dec keep k ((j, v) ∷ m) = ground (arith, lookup-retain dec keep k m)

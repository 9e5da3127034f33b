-- ===== src/Prelude/Dict.antt =====
-- Go's maps with string keys, as association lists. The controllers only look up, set and delete
-- keys and copy maps, so the order of entries is not observed.
pub mod Distinct
use mathlib.Core.Path.{◌≡◌, refl}
use mathlib.Core.Bool.{Bool}
use mathlib.Core.Option.{Option, none, some}
use mathlib.Core.List.{List, [], ◌∷◌}
use Prim.Native.String.{String}
use native.Mathlib.Omega.{arith}
use text.Mathlib.TextEquality.{eq_iff}
use cluster_api_provider_bri.Prelude.Tests.{◌==◌, if◌then◌else◌}

abbrev pub Dict {ℓ} : Type ℓ → Type ℓ
Dict V = List (String × V)

module _ {ℓ} {V : Type ℓ} where
  -- m[k], and whether it is there
  unfoldable pub lookup : String → Dict V → Option V
  lookup key [] = none
  lookup key (entry ∷ rest) = if entry.0 == key then some entry.1 else lookup key rest

  -- m[k] = v
  unfoldable pub insert : String → V → Dict V → Dict V
  insert key x [] = (key, x) ∷ []
  insert key x (entry ∷ rest) =
      if entry.0 == key then (key, x) ∷ rest else entry ∷ insert key x rest

  -- The entries whose key and value pass a test, as a range loop with `continue` copies them.
  unfoldable pub keep : (String → V → Bool) → Dict V → Dict V
  keep p [] = []
  keep p ((j, v) ∷ m) = let rest = keep p m in if p j v then insert j v rest else rest

  pub lookup-insert :
      (key k : String) (x : V) (d : Dict V)
      → lookup k (insert key x d) ≡ (if key == k then some x else lookup k d)
  unfolding insert lookup
  lookup-insert key k x [] = refl
  lookup-insert key k x (entry ∷ rest) =
      let tail = lookup-insert key k x rest in
      ground (arith, tail, eq_iff entry.0 key, eq_iff entry.0 k, eq_iff key k)

module _ {ℓ} {V : Type ℓ} where
  -- A copy that keeps the entries by a test on their keys.
  pub lookup-keep_keys :
      (p : String → Bool) (k : String) (m : Dict V)
      → lookup k (keep (λ j v. p j) m) ≡ (if p k then lookup k m else none)
  unfolding keep lookup
  lookup-keep_keys p k [] = ground arith
  lookup-keep_keys p k ((j, v) ∷ m) =
      ground (arith, lookup-keep_keys p k m, lookup-insert j k v (keep (λ j v. p j) m), eq_iff j k)

-- ===== src/Prelude/Dict/Distinct.antt =====
-- Maps, as the association lists without a second entry of a key.
use mathlib.Core.Path.{◌≡◌, refl}
use mathlib.Core.Bool.{Bool}
use mathlib.Core.Option.{Option, none, some}
use mathlib.Core.List.{[], ◌∷◌}
use Prim.Native.String.{String}
use native.Mathlib.Omega.{arith}
use text.Mathlib.TextEquality.{eq_iff}
use cluster_api_provider_bri.Prelude.Tests.{if◌then◌else◌}
use cluster_api_provider_bri.Prelude.Dict.{Dict, lookup, insert, keep, lookup-insert}

-- An entry that is there passes the test or is dropped.
abbrev pub guarded {ℓ} : {V : Type ℓ} → (V → Bool) → Option V → Option V
guarded p none = none
guarded p (some v) = if p v then some v else none

module _ {ℓ} {V : Type ℓ} where
  abbrev pub HasDistinctKeys : Dict V → Type ℓ
  HasDistinctKeys [] = Unit
  HasDistinctKeys ((k, v) ∷ m) = (lookup k m ≡ none) × HasDistinctKeys m

  pub lookup-keep :
      (p : String → V → Bool) (k : String) (m : Dict V)
      → HasDistinctKeys m
      → lookup k (keep p m) ≡ guarded (p k) (lookup k m)
  unfolding lookup keep
  lookup-keep p k [] d = refl
  lookup-keep p k ((j, v) ∷ m) d =
      ground (arith, lookup-keep p k m d.1, lookup-insert j k v (keep p m), eq_iff j k, d.0)

  pub insert-HasDistinctKeys :
      (k : String) (v : V) (m : Dict V) → HasDistinctKeys m → HasDistinctKeys (insert k v m)
  unfolding lookup insert
  insert-HasDistinctKeys k v [] d = (refl, tt)
  insert-HasDistinctKeys k v ((j, w) ∷ m) d = ground (
    arith,
    insert-HasDistinctKeys k v m d.1,
    lookup-insert k j v m,
    eq_iff j k,
    eq_iff k j,
    d.0,
    d.1,
  )

  pub keep-HasDistinctKeys :
      (p : String → V → Bool) (m : Dict V) → HasDistinctKeys m → HasDistinctKeys (keep p m)
  unfolding keep
  keep-HasDistinctKeys p [] d = tt
  keep-HasDistinctKeys p ((j, v) ∷ m) d =
      let rest = keep-HasDistinctKeys p m d.1 in
      ground (arith, rest, insert-HasDistinctKeys j v (keep p m) rest)

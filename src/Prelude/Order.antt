-- ===== src/Prelude/Order.antt =====
-- The order of strings that Go's `<` is: that of their bytes, which for UTF-8 is that of their
-- characters.
use Prim.Native.Char.{Char, code}
use Prim.Native.Nat.{Ordering}
use Prim.Native.Nat.{compare as compare_ℕ}
use Prim.Native.String.{String, compare, then}
use Prim.Native.String.compare.{nil-cons, cons-nil, cons-cons}
use mathlib.Core.Path.{◌≡◌, refl}
use mathlib.Core.Bool.{Bool, true, false}
use native.Mathlib.Omega.{arith}
use text.Mathlib.Text.{is_lt}

-- `s < t`
abbrev pub str_lt : String → String → Bool
str_lt s t = is_lt (compare s t)

cons_lt :
    (c d : Char) (s t : String)
    → compare (String.◌∷◌ c s) (String.◌∷◌ d t) ≡ then (compare_ℕ (code c) (code d)) (compare s t)
cons_lt c d s t = λ i. cons-cons c d s t i

nil_lt : (d : Char) (t : String) → compare String.[] (String.◌∷◌ d t) ≡ Ordering.lt
nil_lt d t = λ i. nil-cons d t i

lt_nil : (c : Char) (s : String) → compare (String.◌∷◌ c s) String.[] ≡ Ordering.gt
lt_nil c s = λ i. cons-nil c s i

-- `≥` is transitive: no string is less than one that is not less than it, and so on.
pub str_lt_trans : (a b c : String) → str_lt a b ≡ false → str_lt b c ≡ false → str_lt a c ≡ false
str_lt_trans a b String.[] h k = ge_nil a
  where
    ge_nil : (s : String) → str_lt s String.[] ≡ false
    ge_nil String.[] = refl
    ge_nil (String.◌∷◌ x s) = rw lt_nil
str_lt_trans a String.[] (String.◌∷◌ z c) h k = ground (arith, nil_lt z c)
str_lt_trans String.[] (String.◌∷◌ y b) (String.◌∷◌ z c) h k = ground (arith, nil_lt y b)
str_lt_trans (String.◌∷◌ x a) (String.◌∷◌ y b) (String.◌∷◌ z c) h k =
    ground (arith, cons_lt x y a b, cons_lt y z b c, cons_lt x z a c, str_lt_trans a b c)

-- A string that is not less than another is not exceeded by it.
pub str_lt_asymm : (a b : String) → str_lt a b ≡ true → str_lt b a ≡ false
str_lt_asymm String.[] String.[] h = refl
str_lt_asymm String.[] (String.◌∷◌ y b) h = rw lt_nil
str_lt_asymm (String.◌∷◌ x a) String.[] h = ground (arith, lt_nil x a)
str_lt_asymm (String.◌∷◌ x a) (String.◌∷◌ y b) h =
    ground (arith, cons_lt x y a b, cons_lt y x b a, str_lt_asymm a b)

pub str_lt_irrefl : (a : String) → str_lt a a ≡ false
str_lt_irrefl a = ground (arith, str_lt_asymm a a)

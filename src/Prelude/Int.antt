-- ===== src/Prelude/Int.antt =====
-- Go's signed integers: the values of int32 and int64, with the wrap-around of their sums written
-- out, and the tests and the truncated division that the controllers use.
use Prim.Native.Nat.{ℕ, zero, suc, ◌+◌, ◌-◌, ◌*◌, ◌/◌, ◌%◌, ◌<◌}
use mathlib.Core.Path.{◌≡◌, refl}
use mathlib.Core.Bool.{Bool, true, false}
use native.Mathlib.Omega.{arith}
use cluster_api_provider_bri.Prelude.Tests.{ltb, leb, nat_eq, if◌then◌else◌}

-- `negsuc n` is -(n + 1).
pub data ℤ : Type 0 where
  pos : ℕ → ℤ
  negsuc : ℕ → ℤ

abbrev pub pos_part : ℤ → ℕ
pos_part (pos n) = n
pos_part (negsuc n) = 0

abbrev pub neg_part : ℤ → ℕ
neg_part (pos n) = 0
neg_part (negsuc n) = suc n

-- `a > 0`.
abbrev pub is_pos : ℤ → Bool
is_pos (pos n) = ltb 0 n
is_pos (negsuc n) = false

-- `a == 0`.
abbrev pub is_zero : ℤ → Bool
is_zero (pos n) = nat_eq n 0
is_zero (negsuc n) = false

-- `a >= b`.
abbrev pub geb_ℤ : ℤ → ℤ → Bool
geb_ℤ (pos a) (pos b) = leb b a
geb_ℤ (pos a) (negsuc b) = true
geb_ℤ (negsuc a) (pos b) = false
geb_ℤ (negsuc a) (negsuc b) = leb a b

-- `a == b`.
abbrev pub eq_ℤ : ℤ → ℤ → Bool
eq_ℤ (pos a) (pos b) = nat_eq a b
eq_ℤ (pos a) (negsuc b) = false
eq_ℤ (negsuc a) (pos b) = false
eq_ℤ (negsuc a) (negsuc b) = nat_eq a b

abbrev pub max_int32 : ℕ
max_int32 = 2147483647

abbrev pub max_int64 : ℕ
max_int64 = 9223372036854775807

-- `n++` on an int32.
abbrev pub inc_int32 : ℤ → ℤ
inc_int32 (pos n) = if leb max_int32 n then negsuc max_int32 else pos (n + 1)
inc_int32 (negsuc zero) = pos 0
inc_int32 (negsuc (suc n)) = negsuc n

-- `a + n` on an int64, for an addend `n` of int64 that is not negative.
abbrev pub add_int64 : ℤ → ℕ → ℤ
add_int64 (pos a) n =
    if leb (a + n) max_int64 then pos (a + n) else negsuc (2 * max_int64 + 1 - (a + n))
add_int64 (negsuc a) n = if leb (suc a) n then pos (n - suc a) else negsuc (a - n)

-- `a + b` on int32.
abbrev pub add_int32 : ℤ → ℤ → ℤ
add_int32 (pos a) (pos b) =
    if leb (a + b) max_int32 then pos (a + b) else negsuc (2 * max_int32 + 1 - (a + b))
add_int32 (pos a) (negsuc b) = if leb (suc b) a then pos (a - suc b) else negsuc (b - a)
add_int32 (negsuc a) (pos b) = if leb (suc a) b then pos (b - suc a) else negsuc (a - b)
add_int32 (negsuc a) (negsuc b) =
    if ltb (a + b) max_int32 then negsuc (a + b + 1) else pos (2 * max_int32 - (a + b))

-- The int64 with the given residue modulo 2 ^ 64.
abbrev pub of_residue64 : ℕ → ℤ
of_residue64 n =
    let r = n % 18446744073709551616 in
    if leb r max_int64 then pos r else negsuc (18446744073709551615 - r)

-- The int32 with the given residue modulo 2 ^ 32.
abbrev pub of_residue32 : ℕ → ℤ
of_residue32 n =
    let r = n % 4294967296 in if leb r max_int32 then pos r else negsuc (4294967295 - r)

-- `a * n` on int64.
abbrev pub mul_int64 : ℤ → ℕ → ℤ
mul_int64 (pos a) n = of_residue64 (a * n)
mul_int64 (negsuc a) n = of_residue64 ((18446744073709551616 - suc a) * n)

abbrev pub neg_of : ℕ → ℤ
neg_of zero = pos 0
neg_of (suc n) = negsuc n

-- `a / n`, truncated toward zero, for `n > 0`.
abbrev pub quot : ℤ → ℕ → ℤ
quot (pos a) n = pos (a / n)
quot (negsuc a) n = neg_of (suc a / n)

-- `n++` on an int32 that is in range and not its maximum is the next integer.
pub inc_int32_lem : (n : ℕ) → n < max_int32 → inc_int32 (pos n) ≡ pos (n + 1)
inc_int32_lem n h = ground arith

wraps : inc_int32 (pos max_int32) ≡ negsuc max_int32
wraps = refl

truncates : quot (negsuc 6) 2 ≡ negsuc 2
truncates = refl

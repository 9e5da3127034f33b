-- ===== src/Discovery/Quantity.antt =====
-- roundQuantity of pkg/controller/discovery.go.
pub mod Rounding
use cluster_api_provider_bri.Prelude.{
  ℕ, ◌+◌, ◌*◌, ◌/◌, ◌≤◌, ◌<◌, String, ◌≡◌, refl, arith, leb, if◌then◌else◌,
}
use cluster_api_provider_bri.Prelude.Int.{
  ℤ, pos, negsuc, pos_part, add_int64, quot, geb_ℤ, max_int64,
}
use cluster_api_provider_bri.Prelude.Text.{format_int}
use Prim.Native.String.{◌++◌}

abbrev pub gib : ℕ
gib = 1073741824

abbrev pub tib : ℕ
tib = 1099511627776

-- The count of GiB, rounded: `(value + gib/2) / gib` on int64.
unfoldable pub gib_count : ℤ → ℤ
gib_count value = quot (add_int64 value (gib / 2)) gib

-- The count of TiB, rounded from the count of GiB.
unfoldable pub tib_count : ℤ → ℤ
tib_count n = quot (add_int64 n (tib / gib / 2)) (tib / gib)

unfoldable pub round_quantity : ℤ → String
unfolding gib_count tib_count
round_quantity value =
    let n = gib_count value in
    if geb_ℤ n (pos (tib / gib)) then format_int (tib_count n) ++ "T" else format_int n ++ "G"

round_tests :
    (round_quantity (pos 68719476736) ≡ "64G")
    × (round_quantity (pos 67000000000) ≡ "62G")
    × (round_quantity (pos 1099511627776) ≡ "1T")
    × (round_quantity (pos 1098974756864) ≡ "1T")
unfolding round_quantity format_int
round_tests = (refl, refl, refl, refl)

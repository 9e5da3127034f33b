-- ===== src/Discovery/Quantity/Rounding.antt =====
-- The rounding of roundQuantity of pkg/controller/discovery.go.
use cluster_api_provider_bri.Prelude.{ℕ, ◌+◌, ◌*◌, ◌/◌, ◌≤◌, ◌<◌, ◌≡◌, arith}
use cluster_api_provider_bri.Prelude.Int.{pos, max_int64}
use cluster_api_provider_bri.Discovery.Quantity.{gib, gib_count}

-- A size is near a count of a unit: by half a unit at most, and below that above it.
abbrev pub IsNearest : ℕ → ℕ → ℕ → Type 0
IsNearest unit value n = (n * unit ≤ value + unit / 2) × (value < n * unit + (unit + 1) / 2)

-- The count of GiB of a size that is half a GiB below the int64 maximum is the nearest one, halves up.
pub gib_count-IsNearest :
    (value : ℕ)
    → value + gib / 2 ≤ max_int64
    → (n : ℕ) × (gib_count (pos value) ≡ pos n) × IsNearest gib value n
unfolding gib_count
gib_count-IsNearest value small =
    ((value + gib / 2) / gib, ground arith, (omega arith, omega arith))

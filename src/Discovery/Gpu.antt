-- ===== src/Discovery/Gpu.antt =====
-- discoverGPUs, populateHomogeneousGPU and populateMixedGPU of pkg/controller/discovery.go. The
-- map from (vendor, device) to a count is an association list: its order is not observed, since the
-- loops over it sum, collect a set, or visit one entry.
mod Table
pub mod Count
use Prim.Native.String.{◌++◌}
use cluster_api_provider_bri.Prelude.{
  ℕ, String, Bool, true, false, not, ◌&&◌, Option, none, some, List, [], ◌∷◌, ◌==◌, nat_eq, length,
  if◌then◌else◌,
}
use cluster_api_provider_bri.Prelude.Int.{ℤ, pos, inc_int32, add_int32, mul_int64}
use cluster_api_provider_bri.Prelude.Text.{to_lower, trim_prefix}
use cluster_api_provider_bri.Prelude.Dict.{lookup, Dict}
use cluster_api_provider_bri.Api.Host.{HostGpu}
use Table.{GpuModel}
unfoldable pub use Table.{gpu_model_table}

-- The vendor ids of PCI and their label values.
abbrev pub gpu_vendor_names : Dict String
gpu_vendor_names = ("10de", "nvidia") ∷ ("1002", "amd") ∷ ("8086", "intel") ∷ []

abbrev pci_display_class_id : String
pci_display_class_id = "0x03"

-- The fields of a COSI PCIDevice.
pub record PciDevice : Type 0 where
  pub class_id : String
  pub vendor_id : String
  pub product_id : String

pub record PairKey : Type 0 where
  pub vendor : String
  pub device : String

abbrev pub same_pair : PairKey → PairKey → Bool
same_pair a b = a.vendor == b.vendor && a.device == b.device

abbrev pub Counts : Type 0
Counts = List (PairKey × ℤ)

-- counts[key]++
unfoldable pub bump : PairKey → Counts → Counts
bump k [] = (k, pos 1) ∷ []
bump k ((j, n) ∷ m) =
    let rest = bump k m in if same_pair j k then (j, inc_int32 n) ∷ m else (j, n) ∷ rest

abbrev pub is_some {ℓ} : {A : Type ℓ} → Option A → Bool
is_some none = false
is_some (some _) = true

-- The pair of a device that counts: display class, known vendor.
unfoldable pub gpu_pair : PciDevice → Option PairKey
unfolding lookup to_lower
gpu_pair d =
    let vendor = trim_prefix (to_lower d.vendor_id) "0x" in
    let device = trim_prefix (to_lower d.product_id) "0x" in
    if not (to_lower d.class_id == to_lower pci_display_class_id)
    then none
    else if not (is_some (lookup vendor gpu_vendor_names))
    then none
    else some (record { vendor = vendor; device = device })

abbrev pub bump_if : Option PairKey → Counts → Counts
bump_if none m = m
bump_if (some k) m = bump k m

-- The loop over the devices.
unfoldable pub count_pairs : Counts → List PciDevice → Counts
unfolding bump gpu_pair
count_pairs m [] = m
count_pairs m (d ∷ ds) = count_pairs (bump_if (gpu_pair d) m) ds

-- The loop that sums the counts on an int32.
unfoldable pub total_count : ℤ → Counts → ℤ
total_count acc [] = acc
total_count acc ((k, n) ∷ m) = total_count (add_int32 acc n) m

abbrev or_empty : Option String → String
or_empty none = ""
or_empty (some s) = s

abbrev pub with_model : HostGpu → ℤ → Option GpuModel → HostGpu
with_model gpu n none = gpu
with_model gpu n (some m) = record gpu {
  model = m.model;
  memory_per_gpu = pos m.hbm_bytes;
  total_memory = mul_int64 n m.hbm_bytes;
}

unfoldable pub populate_homogeneous_gpu : HostGpu → Counts → HostGpu
populate_homogeneous_gpu gpu [] = gpu
populate_homogeneous_gpu gpu ((k, n) ∷ m) =
    populate_homogeneous_gpu
      (with_model
        (record gpu { vendor = or_empty (lookup k.vendor gpu_vendor_names); device_id = k.device })
        n (lookup (k.vendor ++ (":" ++ k.device)) gpu_model_table))
      m

-- Whether all pairs of the counts have the given vendor.
unfoldable pub all_vendor : String → Counts → Bool
all_vendor v [] = true
all_vendor v ((k, n) ∷ m) = if k.vendor == v then all_vendor v m else false

-- The set of vendors has one element if all the pairs have the vendor of the first.
unfoldable pub single_vendor : Counts → Option String
unfolding all_vendor
single_vendor [] = none
single_vendor ((k, n) ∷ m) = if all_vendor k.vendor m then some k.vendor else none

abbrev pub with_vendor : HostGpu → Option String → HostGpu
with_vendor gpu none = gpu
with_vendor gpu (some v) = record gpu { vendor = or_empty (lookup v gpu_vendor_names) }

unfoldable pub populate_mixed_gpu : HostGpu → Counts → HostGpu
populate_mixed_gpu gpu m = record (with_vendor gpu (single_vendor m)) { mixed = true }

abbrev empty_gpu : HostGpu
empty_gpu = record {
  vendor = "";
  model = "";
  device_id = "";
  memory_per_gpu = pos 0;
  count = pos 0;
  total_memory = pos 0;
  mixed = false;
}

-- The part of discoverGPUs after the loops that count.
unfoldable pub summarize : Counts → Option HostGpu
summarize m =
    let gpu = record empty_gpu { count = total_count empty_gpu.count m } in
    if nat_eq (length m) 0
    then none
    else if nat_eq (length m) 1
    then some (populate_homogeneous_gpu gpu m)
    else some (populate_mixed_gpu gpu m)

-- The devices are `none` when COSI answers with an error: the summary is then left nil.
unfoldable pub discover_gpus : Option (List PciDevice) → Option HostGpu
discover_gpus none = none
discover_gpus (some devices) = summarize (count_pairs [] devices)

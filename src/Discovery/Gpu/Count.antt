-- ===== src/Discovery/Gpu/Count.antt =====
-- The number of GPUs that discoverGPUs of pkg/controller/discovery.go reports.
use cluster_api_provider_bri.Prelude.{
  ℕ, suc, ◌+◌, ◌≤◌, ◌<◌, Option, none, some, List, [], ◌∷◌, String, ◌≡◌, refl, ap, ◌∙◌, arith,
}
use cluster_api_provider_bri.Prelude.Int.{ℤ, pos, negsuc, pos_part, max_int32}
use cluster_api_provider_bri.Api.Host.{HostGpu}
use cluster_api_provider_bri.Discovery.Gpu.{
  PciDevice, PairKey, Counts, bump, bump_if, gpu_pair, count_pairs, total_count, summarize,
  discover_gpus, single_vendor, populate_homogeneous_gpu, populate_mixed_gpu, with_model,
  with_vendor,
}
use cluster_api_provider_bri.Discovery.Gpu.Table.{GpuModel}

-- The devices that are GPUs of a known vendor.
abbrev one_if : Option PairKey → ℕ
one_if none = 0
one_if (some k) = 1

abbrev pub gpus : List PciDevice → ℕ
gpus [] = 0
gpus (d ∷ ds) = one_if (gpu_pair d) + gpus ds

abbrev total : Counts → ℕ
total [] = 0
total ((k, n) ∷ m) = pos_part n + total m

-- Every count is positive.
abbrev ArePositive : Counts → Type 0
ArePositive [] = Unit
ArePositive ((k, pos n) ∷ m) = (0 < n) × ArePositive m
ArePositive ((k, negsuc n) ∷ m) = ⊥

bump-total :
    (k : PairKey) (m : Counts)
    → ArePositive m
    → total m < max_int32
    → ArePositive (bump k m) × (total (bump k m) ≡ suc (total m))
unfolding bump
bump-total k [] p small = (ground arith, refl)
bump-total k ((j, pos n) ∷ m) p small = let rest = bump-total k m p.1 (ground arith) in ground arith
bump-total k ((j, negsuc n) ∷ m) p small = absurd p

-- The counts `m'` are the positive counts `m` with `n` more devices.
abbrev IsAfter : Counts → ℕ → Counts → Type 0
IsAfter m n m' = ArePositive m' × (total m' ≡ total m + n)

count_one :
    (o : Option PairKey) (m : Counts) (ds : List PciDevice)
    → ((m' : Counts)
        → ArePositive m'
        → total m' + gpus ds ≤ max_int32
        → IsAfter m' (gpus ds) (count_pairs m' ds))
    → ArePositive m
    → total m + (one_if o + gpus ds) ≤ max_int32
    → IsAfter m (one_if o + gpus ds) (count_pairs (bump_if o m) ds)
count_one none m ds ih p small = let rest = ih m p (ground arith) in ground arith
count_one (some k) m ds ih p small =
    let bumped = bump-total k m p (ground arith) in
    let rest = ih (bump k m) bumped.0 (ground arith) in ground arith

count_pairs-total :
    (m : Counts) (ds : List PciDevice)
    → ArePositive m
    → total m + gpus ds ≤ max_int32
    → IsAfter m (gpus ds) (count_pairs m ds)
unfolding count_pairs
count_pairs-total m [] p small = (p, omega arith)
count_pairs-total m (d ∷ ds) p small =
    count_one (gpu_pair d) m ds (λ m' q s. count_pairs-total m' ds q s) p small

total_count-total :
    (a : ℕ) (m : Counts)
    → ArePositive m
    → a + total m ≤ max_int32
    → total_count (pos a) m ≡ pos (a + total m)
unfolding total_count
total_count-total a [] p small = ground arith
total_count-total a ((k, pos n) ∷ m) p small =
    let rest = total_count-total (a + n) m p.1 (ground arith) in ground arith
total_count-total a ((k, negsuc n) ∷ m) p small = absurd p

with_model-count : (g : HostGpu) (n : ℤ) (o : Option GpuModel) → (with_model g n o).count ≡ g.count
with_model-count g n none = refl
with_model-count g n (some x) = refl

homogeneous-count : (m : Counts) (g : HostGpu) → (populate_homogeneous_gpu g m).count ≡ g.count
unfolding populate_homogeneous_gpu
homogeneous-count [] g = refl
homogeneous-count ((k, n) ∷ m) g = homogeneous-count m _ ∙ with_model-count _ n _

mixed-count : (g : HostGpu) (o : Option String) → (with_vendor g o).count ≡ g.count
mixed-count g none = refl
mixed-count g (some v) = refl

abbrev pub count_of : Option HostGpu → ℤ
count_of none = pos 0
count_of (some g) = g.count

summarize-count :
    (m : Counts) → ArePositive m → total m ≤ max_int32 → count_of (summarize m) ≡ pos (total m)
unfolding summarize populate_mixed_gpu
summarize-count [] p small = refl
summarize-count (x ∷ []) p small =
    let counted = total_count-total 0 (x ∷ []) p (omega arith) in
    grind (arith, homogeneous-count (x ∷ []))
summarize-count (x ∷ y ∷ m) p small =
    let counted = total_count-total 0 (x ∷ y ∷ m) p (omega arith) in
    grind (arith, λ (g : HostGpu). mixed-count g (single_vendor (x ∷ y ∷ m)))

-- discoverGPUs reports as many GPUs as there are PCI devices of the display class and of a known
-- vendor, whatever their models, up to the int32 maximum; and no GPU summary counts as none.
pub discover_gpus-count :
    (ds : List PciDevice) → gpus ds ≤ max_int32 → count_of (discover_gpus (some ds)) ≡ pos (gpus ds)
unfolding discover_gpus
discover_gpus-count ds small =
    let counted = count_pairs-total [] ds tt (omega arith) in
    let summed = summarize-count (count_pairs [] ds) counted.0 (omega arith) in
    summed ∙ ap pos (omega arith)

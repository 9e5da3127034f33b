-- ===== src/Discovery/Labels/Managed.antt =====
-- What applyDiscoveryLabels of pkg/controller/discovery.go makes of a host's labels, label by label.
use cluster_api_provider_bri.Prelude.{
  String, Bool, true, false, not, Option, none, some, List, [], ◌∷◌, ◌++◌, ◌≡◌, refl, ap, arith,
  All, Bool-cases, inl, inr, ◌==◌, ◌!=◌, eq_iff, if◌then◌else◌,
}
use cluster_api_provider_bri.Prelude.Int.{is_pos, is_zero}
use cluster_api_provider_bri.Prelude.Text.{has_prefix, format_int}
use cluster_api_provider_bri.Prelude.Dict.{
  Dict, lookup, insert, keep, lookup-insert, lookup-keep_keys,
}
use cluster_api_provider_bri.Api.Host.{ByotHost, HostHardware, HostGpu, HostDisk, is_available}
use cluster_api_provider_bri.Discovery.Quantity.{round_quantity}
use cluster_api_provider_bri.Discovery.Disk.{disk_type_label, system_disk}
use cluster_api_provider_bri.Discovery.Labels.{
  discovery_label_prefix, label_available, label_cpu_cores, label_cpu_arch, label_memory,
  label_disk_type, label_disk_size, label_gpu_count, label_gpu_vendor, label_gpu_model,
  label_platform, label_talos_version, label_failure_domain, set_if, discovery_labels,
  is_operator_label, promote_gpus, promote_disk, promote_hardware, promote_hardware_labels,
  promote_failure_domain,
}

-- A label and the value that it has, if any.
abbrev pub Row : Type 0
Row = String × Option String

abbrev when : Bool → String → Option String
when b v = if b then some v else none

abbrev non_blank : String → Option String
non_blank v = when (v != "") v

abbrev gpu_rows : Option HostGpu → List Row
gpu_rows none = []
gpu_rows (some g) =
    (label_gpu_model, non_blank g.model)
    ∷ (label_gpu_vendor, non_blank g.vendor)
    ∷ (label_gpu_count, when (is_pos g.count) (format_int g.count))
    ∷ []

abbrev disk_rows : Option HostDisk → List Row
disk_rows none = []
disk_rows (some d) =
    (label_disk_size, when (not (is_zero d.size)) (round_quantity d.size))
    ∷ (label_disk_type, non_blank (disk_type_label d.kind))
    ∷ []

abbrev hardware_rows : Option HostHardware → List Row
hardware_rows none = []
hardware_rows (some hw) =
    gpu_rows hw.gpus
    ++ (disk_rows (system_disk hw.disks)
        ++ ((label_memory, when (not (is_zero hw.memory)) (round_quantity hw.memory))
            ∷ (label_cpu_cores, when (is_pos hw.cpu.cores) (format_int hw.cpu.cores))
            ∷ []))

abbrev domain_rows : Option String → List Row
domain_rows none = []
domain_rows (some fd) = (label_failure_domain, non_blank fd) ∷ []

-- The labels under byot.io/ that a host has, by its status and spec.
abbrev pub managed : ByotHost → List Row
managed h =
    domain_rows h.spec.failure_domain
    ++ (hardware_rows h.status.hardware
        ++ ((label_platform, non_blank h.status.platform)
            ∷ (label_talos_version, non_blank h.status.talos_version)
            ∷ (label_cpu_arch, non_blank h.status.arch)
            ∷ (label_available, when (is_available h.status.phase) "true")
            ∷ []))

abbrev or_else : Option String → Option String → Option String
or_else none b = b
or_else (some a) b = some a

or_else-none : (o : Option String) → or_else o none ≡ o
or_else-none none = refl
or_else-none (some v) = refl

-- The value that the rows give to a label.
abbrev pub value_in : List Row → String → Option String
value_in [] k = none
value_in ((j, o) ∷ rows) k = if j == k then or_else o (value_in rows k) else value_in rows k

abbrev apply_row : Row → Dict String → Dict String
apply_row (k, none) m = m
apply_row (k, some v) m = insert k v m

abbrev apply_rows : List Row → Dict String → Dict String
apply_rows [] m = m
apply_rows (r ∷ rows) m = apply_row r (apply_rows rows m)

lookup-apply_rows :
    (k : String) (rows : List Row) (m : Dict String)
    → lookup k (apply_rows rows m) ≡ or_else (value_in rows k) (lookup k m)
lookup-apply_rows k [] m = refl
lookup-apply_rows k ((j, none) ∷ rows) m = ground (arith, lookup-apply_rows k rows m)
lookup-apply_rows k ((j, some v) ∷ rows) m =
    ground (arith, lookup-insert j k v (apply_rows rows m), lookup-apply_rows k rows m)

set_if-apply_row :
    (b : Bool) (k v : String) (m : Dict String) → set_if b k v m ≡ apply_row (k, when b v) m
unfolding set_if
set_if-apply_row true k v m = refl
set_if-apply_row false k v m = refl

apply_rows-append :
    (rows more : List Row) (m : Dict String)
    → apply_rows (rows ++ more) m ≡ apply_rows rows (apply_rows more m)
apply_rows-append [] more m = refl
apply_rows-append (r ∷ rows) more m = ap (apply_row r) (apply_rows-append rows more m)

promote_gpus-rows :
    (g : Option HostGpu) (m : Dict String) → promote_gpus g m ≡ apply_rows (gpu_rows g) m
unfolding promote_gpus
promote_gpus-rows none m = refl
promote_gpus-rows (some g) m = simp set_if-apply_row

promote_disk-rows :
    (d : Option HostDisk) (m : Dict String) → promote_disk d m ≡ apply_rows (disk_rows d) m
unfolding promote_disk
promote_disk-rows none m = refl
promote_disk-rows (some d) m = simp set_if-apply_row

promote_hardware-rows :
    (hw : Option HostHardware) (m : Dict String)
    → promote_hardware hw m ≡ apply_rows (hardware_rows hw) m
unfolding promote_hardware promote_hardware_labels
promote_hardware-rows none m = refl
promote_hardware-rows (some hw) m =
    simp (apply_rows-append, promote_gpus-rows, promote_disk-rows, set_if-apply_row)

promote_failure_domain-rows :
    (fd : Option String) (m : Dict String)
    → promote_failure_domain fd m ≡ apply_rows (domain_rows fd) m
unfolding promote_failure_domain
promote_failure_domain-rows none m = refl
promote_failure_domain-rows (some fd) m = simp set_if-apply_row

discovery_labels-apply_rows :
    (h : ByotHost)
    → discovery_labels h ≡ apply_rows (managed h) (keep is_operator_label h.meta.labels)
unfolding discovery_labels
discovery_labels-apply_rows h =
    simp (apply_rows-append, promote_failure_domain-rows, promote_hardware-rows, set_if-apply_row)

-- Every row is under the prefix.
abbrev IsPrefixed : Row → Type 0
IsPrefixed (j, o) = has_prefix j discovery_label_prefix ≡ true

All-append :
    (rows more : List Row)
    → All IsPrefixed rows
    → All IsPrefixed more
    → All IsPrefixed (rows ++ more)
All-append [] more a b = b
All-append (r ∷ rows) more a b = (a.0, All-append rows more a.1 b)

gpu_rows-IsPrefixed : (g : Option HostGpu) → All IsPrefixed (gpu_rows g)
gpu_rows-IsPrefixed none = tt
gpu_rows-IsPrefixed (some g) = (refl, (refl, (refl, tt)))

disk_rows-IsPrefixed : (d : Option HostDisk) → All IsPrefixed (disk_rows d)
disk_rows-IsPrefixed none = tt
disk_rows-IsPrefixed (some d) = (refl, (refl, tt))

hardware_rows-IsPrefixed : (hw : Option HostHardware) → All IsPrefixed (hardware_rows hw)
hardware_rows-IsPrefixed none = tt
hardware_rows-IsPrefixed (some hw) = All-append (gpu_rows hw.gpus) _ (gpu_rows-IsPrefixed hw.gpus) (
    All-append (disk_rows (system_disk hw.disks)) _ (disk_rows-IsPrefixed (system_disk hw.disks))
      (refl, (refl, tt)))

domain_rows-IsPrefixed : (fd : Option String) → All IsPrefixed (domain_rows fd)
domain_rows-IsPrefixed none = tt
domain_rows-IsPrefixed (some fd) = (refl, tt)

managed-IsPrefixed : (h : ByotHost) → All IsPrefixed (managed h)
managed-IsPrefixed h =
    All-append (domain_rows h.spec.failure_domain) _ (domain_rows-IsPrefixed h.spec.failure_domain)
      (All-append (hardware_rows h.status.hardware) _ (hardware_rows-IsPrefixed h.status.hardware)
        (refl, (refl, (refl, (refl, tt)))))

value_in-none :
    (rows : List Row) (k : String)
    → All IsPrefixed rows
    → has_prefix k discovery_label_prefix ≡ false
    → value_in rows k ≡ none
value_in-none [] k all other = refl
value_in-none ((j, o) ∷ rows) k all other =
    ground (arith, value_in-none rows k all.1 other, eq_iff j k)

-- The labels of a host after applyDiscoveryLabels: a label under byot.io/ has the value that the
-- table of the managed labels gives for the status and the spec, and is absent where that gives
-- none, whatever it was before; any other label is as it was.
pub lookup-discovery_labels :
    (h : ByotHost) (k : String)
    → lookup k (discovery_labels h) ≡ (
        if has_prefix k discovery_label_prefix
        then value_in (managed h) k
        else lookup k h.meta.labels)
lookup-discovery_labels h k = rw (discovery_labels-apply_rows h) (
    rw lookup-apply_rows (
      rw (lookup-keep_keys (λ j. not (has_prefix j discovery_label_prefix)) k h.meta.labels)
        (elim (Bool-cases (has_prefix k discovery_label_prefix)) [
          | inl managed_one ↦ rw managed_one (or_else-none (value_in (managed h) k))
          | inr other ↦ rw (other, value_in-none (managed h) k (managed-IsPrefixed h) other)
        ])))

-- ===== src/Discovery/Labels.antt =====
-- applyDiscoveryLabels, promoteHardwareLabels and promoteGPULabels of pkg/controller/discovery.go:
-- the labels under byot.io/ are rebuilt from the status and the spec, all others are kept.
pub mod Managed
use cluster_api_provider_bri.Prelude.{String, Bool, not, Option, none, some, ◌!=◌, if◌then◌else◌}
use cluster_api_provider_bri.Prelude.Int.{ℤ, is_pos, is_zero}
use cluster_api_provider_bri.Prelude.Text.{has_prefix, format_int}
use cluster_api_provider_bri.Prelude.Dict.{Dict, insert, keep}
use cluster_api_provider_bri.Api.Host.{ByotHost, HostHardware, HostGpu, HostDisk, is_available}
use cluster_api_provider_bri.Discovery.Quantity.{round_quantity}
use cluster_api_provider_bri.Discovery.Disk.{disk_type_label, system_disk}

abbrev pub discovery_label_prefix : String
discovery_label_prefix = "byot.io/"

abbrev pub label_available : String
label_available = "byot.io/available"

abbrev pub label_cpu_cores : String
label_cpu_cores = "byot.io/cpu-cores"

abbrev pub label_cpu_arch : String
label_cpu_arch = "byot.io/cpu-arch"

abbrev pub label_memory : String
label_memory = "byot.io/memory"

abbrev pub label_disk_type : String
label_disk_type = "byot.io/disk-type"

abbrev pub label_disk_size : String
label_disk_size = "byot.io/disk-size"

abbrev pub label_gpu_count : String
label_gpu_count = "byot.io/gpu-count"

abbrev pub label_gpu_vendor : String
label_gpu_vendor = "byot.io/gpu-vendor"

abbrev pub label_gpu_model : String
label_gpu_model = "byot.io/gpu-model"

abbrev pub label_platform : String
label_platform = "byot.io/platform"

abbrev pub label_talos_version : String
label_talos_version = "byot.io/talos-version"

abbrev pub label_failure_domain : String
label_failure_domain = "byot.io/failure-domain"

-- `if test { labels[key] = value }`
unfoldable pub set_if : Bool → String → String → Dict String → Dict String
set_if test key value labels = if test then insert key value labels else labels

abbrev pub is_operator_label : String → String → Bool
is_operator_label key value = not (has_prefix key discovery_label_prefix)

unfoldable pub promote_gpu_labels : HostGpu → Dict String → Dict String
promote_gpu_labels g labels = set_if (g.model != "") label_gpu_model g.model (
    set_if (g.vendor != "") label_gpu_vendor g.vendor
      (set_if (is_pos g.count) label_gpu_count (format_int g.count) labels))

unfoldable pub promote_gpus : Option HostGpu → Dict String → Dict String
unfolding promote_gpu_labels
promote_gpus none labels = labels
promote_gpus (some g) labels = promote_gpu_labels g labels

unfoldable pub promote_disk : Option HostDisk → Dict String → Dict String
promote_disk none labels = labels
promote_disk (some d) labels =
    set_if (not (is_zero d.size)) label_disk_size (round_quantity d.size)
      (set_if (disk_type_label d.kind != "") label_disk_type (disk_type_label d.kind) labels)

unfoldable pub promote_hardware_labels : HostHardware → Dict String → Dict String
promote_hardware_labels hw labels = promote_gpus hw.gpus (
    promote_disk (system_disk hw.disks) (
      set_if (not (is_zero hw.memory)) label_memory (round_quantity hw.memory)
        (set_if (is_pos hw.cpu.cores) label_cpu_cores (format_int hw.cpu.cores) labels)))

unfoldable pub promote_hardware : Option HostHardware → Dict String → Dict String
promote_hardware none labels = labels
promote_hardware (some hw) labels = promote_hardware_labels hw labels

unfoldable pub promote_failure_domain : Option String → Dict String → Dict String
promote_failure_domain none labels = labels
promote_failure_domain (some fd) labels = set_if (fd != "") label_failure_domain fd labels

-- The new value of host.Labels.
unfoldable pub discovery_labels : ByotHost → Dict String
discovery_labels h = promote_failure_domain h.spec.failure_domain (
    promote_hardware h.status.hardware (
      set_if (h.status.platform != "") label_platform h.status.platform (
        set_if (h.status.talos_version != "") label_talos_version h.status.talos_version (
          set_if (h.status.arch != "") label_cpu_arch h.status.arch (
            set_if (is_available h.status.phase) label_available "true"
              (keep is_operator_label h.meta.labels))))))

unfoldable pub apply_discovery_labels : ByotHost → ByotHost
apply_discovery_labels h = record h { meta = record h.meta { labels = discovery_labels h } }

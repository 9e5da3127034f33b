-- ===== src/Api/Host.antt =====
-- api/v1alpha1/byothost_types.go: the registry record of one Talos machine. A resource.Quantity is
-- its value in bytes, an int64; a nil pointer is `none`; a metav1.Time is a number.
use cluster_api_provider_bri.Prelude.{ℕ, String, Bool, true, false, Option, List}
use cluster_api_provider_bri.Prelude.Int.{ℤ}
use cluster_api_provider_bri.Api.Meta.{ObjectMeta, Conditions}

-- HostPhase is a string: `unset` is the empty one, `unknown_phase` any that is not a constant.
pub data HostPhase : Type 0 where
  unset probing available claimed releasing unavailable : HostPhase
  unknown_phase : String → HostPhase

-- `phase == HostPhaseAvailable`
abbrev pub is_available : HostPhase → Bool
is_available available = true
is_available _ = false

pub record HostClaimRef : Type 0 where
  pub kind : String
  pub name : String
  pub namespace : String
  pub uid : String

pub record HostCpu : Type 0 where
  pub cores : ℤ
  pub packages : ℤ
  pub numa_nodes : ℤ

pub record HostDisk : Type 0 where
  pub name : String
  pub size : ℤ
  pub kind : String
  pub model : String
  pub system_disk : Bool
  pub bus_path : String

pub record HostIdentity : Type 0 where
  pub system_uuid : String
  pub serial_number : String
  pub manufacturer : String
  pub product_name : String
  pub hardware_addr : String

pub record HostGpu : Type 0 where
  pub vendor : String
  pub model : String
  pub device_id : String
  pub memory_per_gpu : ℤ
  pub count : ℤ
  pub total_memory : ℤ
  pub mixed : Bool

pub record HostHardware : Type 0 where
  pub cpu : HostCpu
  pub memory : ℤ
  pub disks : List HostDisk
  pub network_interfaces : List String
  pub external_ip : String
  pub internal_ip : String
  pub gpus : Option HostGpu

pub record ByotHostSpec : Type 0 where
  pub public_ip : String
  pub failure_domain : Option String

pub record ByotHostStatus : Type 0 where
  pub phase : HostPhase
  pub talos_version : String
  pub arch : String
  pub platform : String
  pub hardware : Option HostHardware
  pub identity : Option HostIdentity
  pub maintenance_mode : Bool
  pub claim_ref : Option HostClaimRef
  pub probe_failure_count : ℤ
  pub last_probed_at : Option ℕ
  pub conditions : Conditions

pub record ByotHost : Type 0 where
  pub meta : ObjectMeta
  pub spec : ByotHostSpec
  pub status : ByotHostStatus

abbrev pub host_discovered_condition : String
host_discovered_condition = "Discovered"

abbrev pub host_maintenance_probe_condition : String
host_maintenance_probe_condition = "MaintenanceProbe"

abbrev pub mixed_gpu_models_reason : String
mixed_gpu_models_reason = "MixedGPUModels"

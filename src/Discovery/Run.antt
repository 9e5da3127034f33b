-- ===== src/Discovery/Run.antt =====
-- discoverHost of pkg/controller/discovery.go and the calls that it makes, over the Talos client and
-- its COSI state, which are not part of the repository. What fails in COSI is logged and left out.
pub mod Complete
use cluster_api_provider_bri.Prelude.{
  ℕ, ◌*◌, String, Bool, Option, none, some, List, [], ◌∷◌, ltb, if◌then◌else◌,
}
use cluster_api_provider_bri.Prelude.Int.{ℤ, pos, of_residue32}
use cluster_api_provider_bri.Go.{Err}
use cluster_api_provider_bri.Go.Action.{M, ok, err, handle, pure, raise, wrap_err, ◌>>=◌}
use cluster_api_provider_bri.Endpoints.{Endpoints}
use cluster_api_provider_bri.Api.Host.{HostCpu, HostDisk}
use cluster_api_provider_bri.TalosApply.{TalosClient, Stream, maintenance_client, probe_maintenance}
use cluster_api_provider_bri.HostController.{DiscoveryResult, HostSeams}
use cluster_api_provider_bri.Discovery.Disk.{TalosDisk, host_disks}
use cluster_api_provider_bri.Discovery.Gpu.{PciDevice, discover_gpus}
use cluster_api_provider_bri.Discovery.Addresses.{AddressStatus, discover_addresses}
use cluster_api_provider_bri.Discovery.Parts.{
  Processor, FileInfo, SystemInformation, HardwareAddr, discover_cpu, parse_platform,
  count_numa_nodes, interface_names, sort_strings, identity_of,
}

pub record VersionInfo : Type 0 where
  pub tag : String
  pub arch : String

-- The calls of discovery on a client `T`; a resource that is not there is nil.
pub record DiscoveryClient (W T : Type 0) : Type 0 where
  pub version : T → M W (List (Option VersionInfo))
  pub memory : T → M W (List (Option ℕ))  -- the total of each message, in KiB
  pub ls : T → String → M W (Stream (Option FileInfo))
  pub processors : T → M W (List Processor)
  pub pci_devices : T → M W (List PciDevice)
  pub kernel_cmdline : T → M W String
  pub address_statuses : T → M W (List AddressStatus)
  pub system_information : T → M W (Option SystemInformation)
  pub first_hardware_addr : T → M W (Option HardwareAddr)

-- Tag and architecture, of the first message.
abbrev version_of : List (Option VersionInfo) → VersionInfo
version_of [] = record { tag = ""; arch = "" }
version_of (none ∷ l) = record { tag = ""; arch = "" }
version_of (some v ∷ l) = v

-- The bytes of `%dKi`.
abbrev memory_of : List (Option ℕ) → ℤ
memory_of [] = pos 0
memory_of (none ∷ l) = pos 0
memory_of (some n ∷ l) = pos (n * 1024)

abbrev disks_of : List (List TalosDisk) → List HostDisk
disks_of [] = []
disks_of (l ∷ ls) = host_disks l

-- The nodes of a listing that came to its end.
abbrev counted : List (Option FileInfo) → Option Err → ℕ
counted l none = count_numa_nodes l
counted l (some e) = 0

abbrev numa_of : Option (Stream (Option FileInfo)) → ℕ
numa_of none = 0
numa_of (some s) = counted s.received s.failure

abbrev with_numa_nodes : ℕ → HostCpu → HostCpu
with_numa_nodes n cpu = if ltb 0 n then record cpu { numa_nodes = of_residue32 n } else cpu

abbrev joined {ℓ} : {A : Type ℓ} → Option (Option A) → Option A
joined none = none
joined (some a) = a

abbrev platform_of : Option String → String
platform_of none = ""
platform_of (some cmdline) = parse_platform cmdline

module _ {W : Type 0} where
  -- A best-effort call: `none` for an error.
  abbrev pub attempt : {A : Type 0} → M W A → M W (Option A)
  attempt m = handle m (λ e. pure none) (λ a. pure (some a))

  abbrev pub listed : List (Option FileInfo) → Option Err → M W (List String)
  listed l none = pure (sort_strings (interface_names l))
  listed l (some e) = raise e

module _ {W K T R : Type 0} (tc : TalosClient W K T R) (dc : DiscoveryClient W T) where
  unfoldable pub discover_net_interfaces : T → M W (List String)
  discover_net_interfaces client = do
    stream ← dc.ls client "/sys/class/net"
    listed stream.received stream.failure

  unfoldable pub discover_host : Endpoints → String → M W DiscoveryResult
  discover_host endpoints public_ip = do
    client ← maintenance_client tc endpoints
    versions ← wrap_err "version discovery" (dc.version client)
    memory ← wrap_err "memory discovery" (dc.memory client)
    disks ← wrap_err "disk discovery" (tc.disks client)
    processors ← attempt (dc.processors client)
    devices ← attempt (dc.pci_devices client)
    cmdline ← attempt (dc.kernel_cmdline client)
    nodes ← attempt (dc.ls client "/sys/devices/system/node")
    interfaces ← wrap_err "net discovery" (discover_net_interfaces client)
    addresses ← attempt (dc.address_statuses client)
    system ← attempt (dc.system_information client)
    hardware ← attempt (dc.first_hardware_addr client)
    let version = version_of versions
    let ips = discover_addresses public_ip addresses
    pure (record {
      talos_version = version.tag;
      arch = version.arch;
      platform = platform_of cmdline;
      cpu = with_numa_nodes (numa_of nodes) (discover_cpu processors);
      memory = memory_of memory;
      disks = disks_of disks;
      network_interfaces = interfaces;
      external_ip = ips.0;
      internal_ip = ips.1;
      gpus = discover_gpus devices;
      identity = identity_of (joined system) (joined hardware);
    })

  -- NewByotHostReconciler: discovery and probe of the host controller.
  unfoldable pub host_seams : HostSeams W
  host_seams = record { discover = discover_host; probe_maintenance = probe_maintenance tc }

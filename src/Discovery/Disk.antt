-- ===== src/Discovery/Disk.antt =====
-- The disks of a host: diskDeviceName, diskToHostDisk, diskTypeLabel, systemDisk and isRAIDDevice
-- of pkg/controller/discovery.go, and selectSystemDisk of pkg/controller/talos_apply.go.
pub mod Choice
pub mod Agree
use cluster_api_provider_bri.Prelude.{
  ℕ, String, ◌≡◌, refl, Bool, true, false, ◌||◌, Option, none, some, List, [], ◌∷◌, ◌==◌, ◌!=◌,
  if◌then◌else◌,
}
use cluster_api_provider_bri.Prelude.Int.{of_residue64}
use cluster_api_provider_bri.Prelude.Text.{has_prefix, to_lower}
use cluster_api_provider_bri.Api.Host.{HostDisk}
use Prim.Native.String.{◌++◌}

-- The fields of a storage Disk of the Talos API; `kind` is the name of the type, `size` a uint64.
pub record TalosDisk : Type 0 where
  pub device_name : String
  pub name : String
  pub size : ℕ
  pub kind : String
  pub model : String
  pub system_disk : Bool
  pub bus_path : String

unfoldable pub disk_device_name : TalosDisk → String
disk_device_name d =
    if d.device_name != ""
    then (if has_prefix d.device_name "/dev/" then d.device_name else "/dev/" ++ d.device_name)
    else d.name

unfoldable pub disk_to_host_disk : TalosDisk → HostDisk
unfolding disk_device_name
disk_to_host_disk d = record {
  name = disk_device_name d;
  size = of_residue64 d.size;
  kind = d.kind;
  model = d.model;
  system_disk = d.system_disk;
  bus_path = d.bus_path;
}

-- The disks of one message, in its order.
unfoldable pub host_disks : List TalosDisk → List HostDisk
unfolding disk_to_host_disk
host_disks [] = []
host_disks (d ∷ l) = disk_to_host_disk d ∷ host_disks l

unfoldable pub disk_type_label : String → String
disk_type_label name =
    let t = to_lower name in
    if t == "nvme" || (t == "ssd" || (t == "hdd" || t == "sd")) then t else ""

unfoldable pub is_raid_device : String → Bool
is_raid_device name = has_prefix name "/dev/md" || has_prefix name "md"

abbrev first_of : Option HostDisk → HostDisk → Option HostDisk
first_of none d = some d
first_of (some f) d = some f

-- The loop of systemDisk; `fallback` is the first system disk that is not an md device.
unfoldable pub system_disk_from : Option HostDisk → List HostDisk → Option HostDisk
unfolding is_raid_device
system_disk_from fallback [] = fallback
system_disk_from fallback (d ∷ disks) =
    let skip = system_disk_from fallback disks in
    let rest = system_disk_from (first_of fallback d) disks in
    if d.system_disk then (if is_raid_device d.name then some d else rest) else skip

unfoldable pub system_disk : List HostDisk → Option HostDisk
unfolding system_disk_from
system_disk disks = system_disk_from none disks

-- The normalised name in selectSystemDisk.
unfoldable pub dev_path : String → String
dev_path name = if has_prefix name "/dev/" then name else "/dev/" ++ name

-- The loop of selectSystemDisk; the result is the path, and whether there is one.
unfoldable pub select_system_disk_from : String → List TalosDisk → String × Bool
unfolding is_raid_device dev_path
select_system_disk_from fallback [] = if fallback != "" then (fallback, true) else ("", false)
select_system_disk_from fallback (d ∷ disks) =
    let name = dev_path d.device_name in
    let skip = select_system_disk_from fallback disks in
    let rest = select_system_disk_from (if fallback == "" then name else fallback) disks in
    if d.system_disk then (if is_raid_device name then (name, true) else rest) else skip

unfoldable pub select_system_disk : List TalosDisk → String × Bool
unfolding select_system_disk_from
select_system_disk disks = select_system_disk_from "" disks

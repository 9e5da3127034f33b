-- ===== src/Tests/Tables.antt =====
-- Runs of the discovery's functions and of the edits of a configuration.
use cluster_api_provider_bri.Prelude.{ℕ, String, true, List, [], ◌∷◌, ◌≡◌, arith, refl}
use cluster_api_provider_bri.Prelude.Int.{pos}
use cluster_api_provider_bri.Discovery.Disk.{TalosDisk, host_disks, system_disk, select_system_disk}
use cluster_api_provider_bri.Discovery.Disk.Choice.{
  first_with, or_else, is_raid_system_disk, is_plain_system_disk,
}
use cluster_api_provider_bri.Discovery.Disk.Agree.{chosen, select_system_disk-agrees}
use cluster_api_provider_bri.Discovery.Quantity.{gib, gib_count}
use cluster_api_provider_bri.Discovery.Quantity.Rounding.{IsNearest, gib_count-IsNearest}
use cluster_api_provider_bri.Config.Document.{text, fields, Fields, end, field}

abbrev talos_disk : String → TalosDisk
talos_disk name = record {
  device_name = name;
  name = "disk";
  size = 1000;
  kind = "SSD";
  model = "";
  system_disk = true;
  bus_path = "";
}

abbrev two_disks : List TalosDisk
two_disks = talos_disk "sda" ∷ talos_disk "/dev/md0" ∷ []

select_system_disk-agrees_example :
    (system_disk (host_disks two_disks)
      ≡ or_else
          (first_with is_raid_system_disk (host_disks two_disks))
          (first_with is_plain_system_disk (host_disks two_disks)))
    × (select_system_disk two_disks
        ≡ chosen (
            or_else
              (first_with is_raid_system_disk (host_disks two_disks))
              (first_with is_plain_system_disk (host_disks two_disks))))
select_system_disk-agrees_example = select_system_disk-agrees two_disks refl

gib_count-IsNearest_example :
    (n : ℕ) × (gib_count (pos 67000000000) ≡ pos n) × IsNearest gib 67000000000 n
gib_count-IsNearest_example = gib_count-IsNearest 67000000000 (omega arith)

abbrev document : Fields
document = field "machine" (fields (field "type" (text "worker") end)) end

-- ===== src/Discovery/Disk/Choice.antt =====
-- The choice of the system disk of a host (systemDisk of pkg/controller/discovery.go).
use cluster_api_provider_bri.Prelude.{
  Bool, ◌&&◌, not, Option, none, some, List, [], ◌∷◌, ◌≡◌, refl, arith, if◌then◌else◌,
}
use cluster_api_provider_bri.Api.Host.{HostDisk}
use cluster_api_provider_bri.Discovery.Disk.{is_raid_device, system_disk_from, system_disk}

-- The first element that passes a test.
abbrev pub first_with : (HostDisk → Bool) → List HostDisk → Option HostDisk
first_with p [] = none
first_with p (d ∷ l) = let rest = first_with p l in if p d then some d else rest

abbrev pub or_else : Option HostDisk → Option HostDisk → Option HostDisk
or_else none o = o
or_else (some d) o = some d

abbrev pub is_raid_system_disk : HostDisk → Bool
is_raid_system_disk d = d.system_disk && is_raid_device d.name

abbrev pub is_plain_system_disk : HostDisk → Bool
is_plain_system_disk d = d.system_disk && not (is_raid_device d.name)

system_disk_from-first :
    (o : Option HostDisk) (l : List HostDisk)
    → system_disk_from o l
      ≡ or_else (first_with is_raid_system_disk l) (or_else o (first_with is_plain_system_disk l))
unfolding system_disk_from
system_disk_from-first none [] = refl
system_disk_from-first (some d) [] = refl
system_disk_from-first o (d ∷ l) =
    ground (arith, system_disk_from-first o l, system_disk_from-first (some d) l)

-- systemDisk takes the first system disk that is an md device; if there is none, the first system
-- disk; and none if there is no system disk.
pub system_disk-first :
    (l : List HostDisk)
    → system_disk l ≡ or_else (first_with is_raid_system_disk l) (first_with is_plain_system_disk l)
unfolding system_disk
system_disk-first l = system_disk_from-first none l

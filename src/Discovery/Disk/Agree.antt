-- ===== src/Discovery/Disk/Agree.antt =====
-- The system disk that an upgrade or a first install writes to (selectSystemDisk of
-- pkg/controller/talos_apply.go) against the one that discovery reports and labels (systemDisk of
-- pkg/controller/discovery.go).
use Prim.Native.String.{◌++◌}
use text.Mathlib.TextLemmas.{append-eq-nil_iff}
use cluster_api_provider_bri.Prelude.{
  String, Bool, true, false, not, ◌&&◌, Option, none, some, List, [], ◌∷◌, ◌≡◌, refl, ap, ◌∙◌,
  arith, ◌==◌, eq_iff, any, if◌then◌else◌, Bool-cases, inl, inr,
}
use cluster_api_provider_bri.Api.Host.{HostDisk}
use cluster_api_provider_bri.Discovery.Disk.Choice.{
  first_with, or_else, is_raid_system_disk, is_plain_system_disk, system_disk-first,
}
use cluster_api_provider_bri.Discovery.Disk.{
  TalosDisk, disk_device_name, disk_to_host_disk, host_disks, dev_path, first_of, system_disk_from,
  system_disk, select_system_disk_from, select_system_disk,
}

-- A system disk without a device name.
abbrev pub is_nameless : TalosDisk → Bool
is_nameless d = d.system_disk && d.device_name == ""

-- The answer of selectSystemDisk for a disk of the host.
abbrev pub chosen : Option HostDisk → String × Bool
chosen none = ("", false)
chosen (some d) = (d.name, true)

abbrev name_of : Option HostDisk → String
name_of none = ""
name_of (some d) = d.name

-- A fallback that is there has a name.
abbrev is_named : Option HostDisk → Bool
is_named none = true
is_named (some d) = not (d.name == "")

prefixed-not_empty : (name : String) → ("/dev/" ++ name == "") ≡ false
prefixed-not_empty name = elim (Bool-cases ("/dev/" ++ name == "")) [
  | inl e ↦
      (let nil =
          ((append-eq-nil_iff {p = "/dev/"} {q = name}).0 ((eq_iff ("/dev/" ++ name) "").0 e)).0 in
        ground (arith, (eq_iff "/dev/" "").1 nil))
  | inr e ↦ e
]

dev_path-not_empty : (name : String) → (name == "") ≡ false → (dev_path name == "") ≡ false
unfolding dev_path
dev_path-not_empty name e = ground (arith, prefixed-not_empty name)

disk_device_name-dev_path :
    (d : TalosDisk) → (d.device_name == "") ≡ false → disk_device_name d ≡ dev_path d.device_name
unfolding disk_device_name dev_path
disk_device_name-dev_path d e = ground arith

first_of-is_named :
    (o : Option HostDisk) (d : HostDisk)
    → is_named o ≡ true
    → (d.name == "") ≡ false
    → (is_named (first_of o d) ≡ true)
      × (name_of (first_of o d) ≡ (if name_of o == "" then d.name else name_of o))
first_of-is_named none d named e = (ground arith, refl)
first_of-is_named (some f) d named e = (named, ground arith)

select_from-system_disk :
    (o : Option HostDisk) (l : List TalosDisk)
    → is_named o ≡ true
    → any is_nameless l ≡ false
    → select_system_disk_from (name_of o) l ≡ chosen (system_disk_from o (host_disks l))
unfolding select_system_disk_from system_disk_from host_disks
select_from-system_disk none [] named all_ = refl
select_from-system_disk (some d) [] named all_ = ground arith
select_from-system_disk o (d ∷ l) named all_ = elim (Bool-cases d.system_disk) [
  | inl system ↦
      (let has_name : (d.device_name == "") ≡ false = ground arith in
        let same = disk_device_name-dev_path d has_name in
        let here = dev_path-not_empty d.device_name has_name in
        let fallback = first_of-is_named o (disk_to_host_disk d) named (rw same here) in
        let next =
          select_from-system_disk (first_of o (disk_to_host_disk d)) l fallback.0 (ground arith) in
        ground (arith, same, fallback.1, next))
  | inr plain ↦ ground (arith, select_from-system_disk o l named (ground arith))
]

-- If every disk that Talos marks as a system disk has a device name, discovery and the install agree:
-- systemDisk, on the disks that discovery reports, and selectSystemDisk, on what Talos answers, both
-- take the first system disk that is an md device; if there is none, the first system disk; and none
-- if there is no system disk. selectSystemDisk answers the name that discovery reports.
pub select_system_disk-agrees :
    (l : List TalosDisk)
    → any is_nameless l ≡ false
    → (system_disk (host_disks l)
        ≡ or_else
            (first_with is_raid_system_disk (host_disks l))
            (first_with is_plain_system_disk (host_disks l)))
      × (select_system_disk l
          ≡ chosen (
              or_else
                (first_with is_raid_system_disk (host_disks l))
                (first_with is_plain_system_disk (host_disks l))))
unfolding select_system_disk system_disk
select_system_disk-agrees l named =
    let first = system_disk-first (host_disks l) in
    (first, select_from-system_disk none l refl named ∙ ap chosen first)

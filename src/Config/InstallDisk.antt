-- ===== src/Config/InstallDisk.antt =====
-- The edit of the install disk (setInstallDisk of pkg/controller/talos_apply.go).
use cluster_api_provider_bri.Prelude.{String, Option, none, some, ◌≡◌, ◌≢◌, arith, eq_iff, refl}
use cluster_api_provider_bri.Config.{
  as_map, set_install_disk_doc, fill_disk, is_set, or_new, disk_in,
}
use cluster_api_provider_bri.Config.Document.{Yaml, text, fields, Fields, get, put, get-put}

-- The machine section of a document, and its install section.
abbrev pub machine_of : Fields → Option Fields
machine_of doc = as_map (get "machine" doc)

abbrev pub get_in : String → Option Fields → Option Yaml
get_in k none = none
get_in k (some m) = get k m

abbrev pub install_of : Fields → Option Fields
install_of doc = as_map (get_in "install" (machine_of doc))

-- What the install section has for the disk: the operator's disk, nothing where there is a disk
-- selector, and the given disk otherwise; nothing where there is no machine section.
abbrev disk_choice : String → Option Yaml → Option Yaml → Option Yaml
disk_choice disk (some v) selector = some v
disk_choice disk none (some v) = none
disk_choice disk none none = some (text disk)

abbrev pub expected_disk : String → Fields → Option Fields → Option Yaml
expected_disk disk doc none = none
expected_disk disk doc (some machine) =
    disk_choice disk (get_in "disk" (install_of doc)) (get_in "diskSelector" (install_of doc))

fill_disk-get :
    (disk : String) (install : Fields)
    → get "disk" (fill_disk disk install)
      ≡ disk_choice disk (get "disk" install) (get "diskSelector" install)
unfolding fill_disk is_set
fill_disk-get disk install = let here = get-put "disk" "disk" (text disk) install in ground arith

pub new_get : (k : String) (o : Option Fields) → get_in k o ≡ get k (or_new o)
unfolding get
new_get k none = refl
new_get k (some f) = refl

module _ (disk k j : String) (doc : Fields) where
  by_machine :
      (o : Option Fields)
      → machine_of doc ≡ o
      → k ≢ "machine"
      → j ≢ "install"
      → (get_in "disk" (install_of (disk_in disk doc o)) ≡ expected_disk disk doc o)
        × (get k (disk_in disk doc o) ≡ get k doc)
        × (get_in j (machine_of (disk_in disk doc o)) ≡ get_in j (machine_of doc))
  unfolding as_map
  by_machine none e other_k other_j = ground arith
  by_machine (some m) e other_k other_j =
      let old = as_map (get "install" m) in
      let install = fill_disk disk (or_new old) in
      let machine = put "install" (fields install) m in
      let a = get-put "machine" "machine" (fields machine) doc in
      let b = get-put "machine" k (fields machine) doc in
      let c = get-put "install" "install" (fields install) m in
      let d = get-put "install" j (fields install) m in
      let f = fill_disk-get disk (or_new old) in
      let g = new_get "disk" old in
      let h = new_get "diskSelector" old in ground (arith, eq_iff "machine" k, eq_iff "install" j)

pub set_install_disk_doc-get :
    (disk k j : String) (doc : Fields)
    → k ≢ "machine"
    → j ≢ "install"
    → (get_in "disk" (install_of (set_install_disk_doc disk doc))
        ≡ expected_disk disk doc (machine_of doc))
      × (get k (set_install_disk_doc disk doc) ≡ get k doc)
      × (get_in j (machine_of (set_install_disk_doc disk doc)) ≡ get_in j (machine_of doc))
unfolding set_install_disk_doc
set_install_disk_doc-get disk k j doc other_k other_j =
    by_machine disk k j doc (machine_of doc) refl other_k other_j

-- ===== src/Config/Edited.antt =====
-- What the edits of a configuration make of one of its documents (injectInstallDisk, injectCertSANs
-- and injectClusterAPIServerCertSANs of pkg/controller/talos_apply.go).
use cluster_api_provider_bri.Prelude.{
  String, Bool, true, false, Option, none, some, List, [], ◌∷◌, ◌≡◌, ◌≢◌, ◌∙◌, refl, sym, ap, arith,
  ◌==◌, eq_iff, any, ne_of_eq-false, Bool-cases, inl, inr, if◌then◌else◌,
}
use cluster_api_provider_bri.Config.{
  as_map, as_list, add_san, set_cert_sans_doc, san_in, put_section, set_install_disk_doc,
  contains_string_any, set_cluster_api_server_cert_sans_doc, disk_in, fill_disk, or_new, each_doc,
  each_ip,
}
use cluster_api_provider_bri.Config.Document.{
  text, items, fields, Fields, get, put, append, get-put,
}
use cluster_api_provider_bri.Config.InstallDisk.{
  machine_of, install_of, get_in, expected_disk, set_install_disk_doc-get,
}
use cluster_api_provider_bri.Config.Names.{has_san, has_machine, set_cert_sans_doc-adds}
use cluster_api_provider_bri.Config.ApiNames.{
  cluster_of, api_server_of, has_api_san, set_cluster_api_server_cert_sans_doc-adds,
}

-- The loop over the addresses on one document.
abbrev pub on_each : (String → Fields → Fields) → List String → Fields → Fields
on_each f [] doc = doc
on_each f (ip ∷ ips) doc = on_each f ips (f ip doc)

pub each_doc-twice :
    (f g : Fields → Fields) (docs : List Fields)
    → each_doc f (each_doc g docs) ≡ each_doc (λ doc. f (g doc)) docs
unfolding each_doc
each_doc-twice f g [] = refl
each_doc-twice f g (doc ∷ docs) = ap (λ rest. f (g doc) ∷ rest) (each_doc-twice f g docs)

each_doc-id : (docs : List Fields) → each_doc (λ doc. doc) docs ≡ docs
unfolding each_doc
each_doc-id [] = refl
each_doc-id (doc ∷ docs) = ap (λ rest. doc ∷ rest) (each_doc-id docs)

-- The two loops commute: each document gets all the addresses.
pub each_ip-each_doc :
    (f : String → Fields → Fields) (ips : List String) (docs : List Fields)
    → each_ip f ips docs ≡ each_doc (on_each f ips) docs
unfolding each_ip
each_ip-each_doc f [] docs = sym (each_doc-id docs)
each_ip-each_doc f (ip ∷ ips) docs =
    each_ip-each_doc f ips (each_doc (f ip) docs) ∙ each_doc-twice (on_each f ips) (f ip) docs

-- setCertSANs keeps the sections other than the machine section, and in that all but the names.
module _ (ip k j : String) (doc : Fields) where
  added_keeps :
      (machine : Fields) (o : Option Fields)
      → machine_of doc ≡ some machine
      → add_san ip machine ≡ o
      → k ≢ "machine"
      → j ≢ "certSANs"
      → (get k (put_section "machine" doc o) ≡ get k doc)
        × (get_in j (machine_of (put_section "machine" doc o)) ≡ get_in j (machine_of doc))
        × (has_machine (machine_of (put_section "machine" doc o)) ≡ true)
  unfolding add_san as_map
  added_keeps machine none e f other_k other_j = ground arith
  added_keeps machine (some section) e f other_k other_j =
      let names = items (append (as_list (get "certSANs" machine)) (text ip)) in
      let a = get-put "machine" "machine" (fields section) doc in
      let b = get-put "machine" k (fields section) doc in
      let c = get-put "certSANs" j names machine in
      ground (arith, eq_iff "machine" k, eq_iff "certSANs" j)

  san_in-keeps :
      (o : Option Fields)
      → machine_of doc ≡ o
      → k ≢ "machine"
      → j ≢ "certSANs"
      → (get k (san_in ip doc o) ≡ get k doc)
        × (get_in j (machine_of (san_in ip doc o)) ≡ get_in j (machine_of doc))
        × (has_machine (machine_of (san_in ip doc o)) ≡ has_machine o)
  san_in-keeps none e other_k other_j = (refl, refl, ap has_machine e)
  san_in-keeps (some machine) e other_k other_j =
      added_keeps machine (add_san ip machine) e refl other_k other_j

  set_cert_sans_doc-keeps :
      k ≢ "machine"
      → j ≢ "certSANs"
      → (get k (set_cert_sans_doc ip doc) ≡ get k doc)
        × (get_in j (machine_of (set_cert_sans_doc ip doc)) ≡ get_in j (machine_of doc))
        × (has_machine (machine_of (set_cert_sans_doc ip doc)) ≡ has_machine (machine_of doc))
  unfolding set_cert_sans_doc
  set_cert_sans_doc-keeps other_k other_j = san_in-keeps (machine_of doc) refl other_k other_j

-- The names of the machine section after the loop over the addresses; the rest is kept.
names-edited :
    (ips : List String) (x : String) (doc : Fields)
    → (has_san (on_each set_cert_sans_doc ips doc) x ≡ (
        if has_san doc x
        then true
        else if has_machine (machine_of doc)
        then any (λ ip. ip == x) ips
        else false))
      × (get "cluster" (on_each set_cert_sans_doc ips doc) ≡ get "cluster" doc)
      × (get_in "install" (machine_of (on_each set_cert_sans_doc ips doc))
          ≡ get_in "install" (machine_of doc))
      × (has_machine (machine_of (on_each set_cert_sans_doc ips doc))
          ≡ has_machine (machine_of doc))
names-edited [] x doc = (ground arith, refl, refl, refl)
names-edited (ip ∷ ips) x doc =
    let ih = names-edited ips x (set_cert_sans_doc ip doc) in
    let added = (set_cert_sans_doc-adds ip x doc).0 in
    let kept =
      set_cert_sans_doc-keeps ip "cluster" "install" doc (ne_of_eq-false "cluster" "machine" refl)
        (ne_of_eq-false "install" "certSANs" refl) in
    (ground arith, ih.1 ∙ kept.0, ih.2 ∙ kept.1, ih.3 ∙ kept.2)

-- The names of the API server after the loop over the addresses; the rest is kept.
api_names-edited :
    (ips : List String) (x : String) (doc : Fields)
    → (has_api_san (on_each set_cluster_api_server_cert_sans_doc ips doc) x ≡ (
        if has_api_san doc x
        then true
        else if has_machine (cluster_of doc)
        then any (λ ip. ip == x) ips
        else false))
      × (get "machine" (on_each set_cluster_api_server_cert_sans_doc ips doc) ≡ get "machine" doc)
api_names-edited [] x doc = (ground arith, refl)
api_names-edited (ip ∷ ips) x doc =
    let ih = api_names-edited ips x (set_cluster_api_server_cert_sans_doc ip doc) in
    let added =
      set_cluster_api_server_cert_sans_doc-adds ip x "machine" doc
        (ne_of_eq-false "machine" "cluster" refl) in
    (ground arith, ih.1 ∙ added.2)

-- The edit of one document: the install disk, where there is one, and the two loops.
abbrev pub with_disk_doc : String → Fields → Fields
with_disk_doc disk doc = if disk == "" then doc else set_install_disk_doc disk doc

abbrev pub edited_doc : String → List String → Fields → Fields
edited_doc disk ips doc =
    on_each set_cluster_api_server_cert_sans_doc ips
      (on_each set_cert_sans_doc ips (with_disk_doc disk doc))

disk_in-has_machine :
    (disk : String) (doc : Fields) (o : Option Fields)
    → machine_of doc ≡ o
    → has_machine (machine_of (disk_in disk doc o)) ≡ has_machine (machine_of doc)
unfolding as_map
disk_in-has_machine disk doc none e = refl
disk_in-has_machine disk doc (some machine) e =
    let install = fields (fill_disk disk (or_new (as_map (get "install" machine)))) in
    let a = get-put "machine" "machine" (fields (put "install" install machine)) doc in ground arith

disk_doc-has_machine :
    (disk : String) (doc : Fields)
    → has_machine (machine_of (set_install_disk_doc disk doc)) ≡ has_machine (machine_of doc)
unfolding set_install_disk_doc
disk_doc-has_machine disk doc = disk_in-has_machine disk doc (machine_of doc) refl

-- What the document `new` has of the document `old`, for a name `x`.
abbrev pub IsEdited : String → List String → String → Fields → Fields → Type 0
IsEdited disk ips x old new =
    (has_san new x ≡ (
      if has_san old x
      then true
      else if has_machine (machine_of old)
      then any (λ ip. ip == x) ips
      else false))
    × (has_api_san new x ≡ (
        if has_api_san old x
        then true
        else if has_machine (cluster_of old)
        then any (λ ip. ip == x) ips
        else false))
    × (get_in "disk" (install_of new) ≡ (
        if disk == ""
        then get_in "disk" (install_of old)
        else expected_disk disk old (machine_of old)))

with_disk_doc-keeps :
    (disk x : String) (doc : Fields)
    → (has_san (with_disk_doc disk doc) x ≡ has_san doc x)
      × (has_machine (machine_of (with_disk_doc disk doc)) ≡ has_machine (machine_of doc))
      × (get "cluster" (with_disk_doc disk doc) ≡ get "cluster" doc)
      × (get_in "disk" (install_of (with_disk_doc disk doc)) ≡ (
          if disk == ""
          then get_in "disk" (install_of doc)
          else expected_disk disk doc (machine_of doc)))
with_disk_doc-keeps disk x doc =
    let edit =
      set_install_disk_doc-get disk "cluster" "certSANs" doc
        (ne_of_eq-false "cluster" "machine" refl) (ne_of_eq-false "certSANs" "install" refl) in
    let section = disk_doc-has_machine disk doc in
    elim (Bool-cases (disk == "")) [
      | inl e ↦ rw e (refl, refl, refl, refl)
      | inr e ↦ rw e (ap (λ o. contains_string_any (as_list o) x) edit.2, section, edit.1, edit.0)
    ]

abbrev present : Bool → Bool → Bool → Bool
present had section found = if had then true else if section then found else false

abbrev names_in : Option Fields → String → Bool
names_in cluster x = contains_string_any (as_list (get_in "certSANs" (api_server_of cluster))) x

-- A name is among the certificate names of the machine section, or of the API server, if it was, or
-- if it is one of the addresses and the section is there. The install disk is the operator's, none
-- if the operator set a selector, and else the given disk, if there is one.
pub edited_doc-IsEdited :
    (disk x : String) (ips : List String) (doc : Fields)
    → IsEdited disk ips x doc (edited_doc disk ips doc)
edited_doc-IsEdited disk x ips doc =
    let doc1 = with_disk_doc disk doc in
    let doc2 = on_each set_cert_sans_doc ips doc1 in
    let first = with_disk_doc-keeps disk x doc in
    let second = names-edited ips x doc1 in
    let third = api_names-edited ips x doc2 in
    let found = any (λ ip. ip == x) ips in
    let cluster : get "cluster" doc2 ≡ get "cluster" doc = second.1 ∙ first.2 in
    (
      ap (λ o. contains_string_any (as_list (get_in "certSANs" (as_map o))) x) third.1
          ∙ second.0
          ∙ ap (λ b. present b (has_machine (machine_of doc1)) found) first.0
          ∙ ap (λ b. present (has_san doc x) b found) first.1,
      third.0 ∙ ap (λ o. present (names_in (as_map o) x) (has_machine (as_map o)) found) cluster,
      ap (λ o. get_in "disk" (as_map (get_in "install" (as_map o)))) third.1
          ∙ ap (λ o. get_in "disk" (as_map o)) second.2
          ∙ first.3,
    )

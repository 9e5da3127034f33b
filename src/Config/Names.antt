-- ===== src/Config/Names.antt =====
-- The certificate names of the machine section (setCertSANs of pkg/controller/talos_apply.go).
use cluster_api_provider_bri.Prelude.{
  String, Bool, true, false, Option, none, some, ◌≡◌, refl, ap, arith, ◌==◌, eq_iff, if◌then◌else◌,
}
use cluster_api_provider_bri.Config.{
  as_map, as_list, contains_string_any, add_san, set_cert_sans_doc, san_in,
}
use cluster_api_provider_bri.Config.Document.{
  text, scalar, items, fields, Items, nil, cons, Fields, get, put, append, get-put,
}
use cluster_api_provider_bri.Config.InstallDisk.{machine_of, get_in}

pub append-contains :
    (l : Items) (x y : String)
    → contains_string_any (append l (text x)) y ≡ (if contains_string_any l y then true else x == y)
unfolding contains_string_any append
append-contains nil x y = ground arith
append-contains (cons (text s) l) x y = ground (arith, append-contains l x y)
append-contains (cons (scalar s) l) x y = append-contains l x y
append-contains (cons (items s) l) x y = append-contains l x y
append-contains (cons (fields s) l) x y = append-contains l x y

-- Whether a name is among the certificate names of the machine section.
abbrev pub has_san : Fields → String → Bool
has_san doc ip = contains_string_any (as_list (get_in "certSANs" (machine_of doc))) ip

-- Whether the document has a machine section.
abbrev pub has_machine : Option Fields → Bool
has_machine none = false
has_machine (some m) = true

module _ (ip x : String) (doc : Fields) where
  by_machine :
      (o : Option Fields)
      → machine_of doc ≡ o
      → has_san (san_in ip doc o) x
        ≡ (if has_san doc x then true else if has_machine o then ip == x else false)
  unfolding as_map as_list add_san contains_string_any
  by_machine none e = ground arith
  by_machine (some m) e =
      let sans = as_list (get "certSANs" m) in
      let section = put "certSANs" (items (append sans (text ip))) m in
      let a = get-put "machine" "machine" (fields section) doc in
      let b = get-put "certSANs" "certSANs" (items (append sans (text ip))) m in
      let c = append-contains sans ip x in ground (arith, eq_iff ip x)

  settled : (o : Option Fields) → machine_of doc ≡ o → has_san doc ip ≡ true → san_in ip doc o ≡ doc
  unfolding add_san
  settled none e h = refl
  settled (some m) e h = ground arith

has_san-set_cert_sans_doc :
    (ip x : String) (doc : Fields)
    → has_san (set_cert_sans_doc ip doc) x
      ≡ (if has_san doc x then true else if has_machine (machine_of doc) then ip == x else false)
unfolding set_cert_sans_doc
has_san-set_cert_sans_doc ip x doc = by_machine ip x doc (machine_of doc) refl

again_by :
    (ip : String) (doc : Fields) (o : Option Fields)
    → machine_of doc ≡ o
    → set_cert_sans_doc ip (set_cert_sans_doc ip doc) ≡ set_cert_sans_doc ip doc
unfolding set_cert_sans_doc
again_by ip doc none e =
    let same : set_cert_sans_doc ip doc ≡ doc = ground arith in ap (set_cert_sans_doc ip) same
again_by ip doc (some m) e =
    let there = has_san-set_cert_sans_doc ip ip doc in
    let new = set_cert_sans_doc ip doc in
    settled ip ip new (machine_of new) refl (ground (arith, eq_iff ip ip))

-- After setCertSANs a name is among the certificate names of the machine section if it was, or is
-- the given address; a document without such a section gets none. A second setCertSANs of the same
-- address changes nothing.
pub set_cert_sans_doc-adds :
    (ip x : String) (doc : Fields)
    → (has_san (set_cert_sans_doc ip doc) x
        ≡ (if has_san doc x then true else if has_machine (machine_of doc) then ip == x else false))
      × (set_cert_sans_doc ip (set_cert_sans_doc ip doc) ≡ set_cert_sans_doc ip doc)
set_cert_sans_doc-adds ip x doc =
    (has_san-set_cert_sans_doc ip x doc, again_by ip doc (machine_of doc) refl)

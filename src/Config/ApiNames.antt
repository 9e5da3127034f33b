-- ===== src/Config/ApiNames.antt =====
-- The certificate names of the API server (setClusterAPIServerCertSANs of
-- pkg/controller/talos_apply.go).
use cluster_api_provider_bri.Prelude.{
  String, Bool, true, false, Option, none, some, ◌≡◌, ◌≢◌, refl, arith, ◌==◌, eq_iff, if◌then◌else◌,
}
use cluster_api_provider_bri.Config.{
  as_map, as_list, contains_string_any, add_san, set_cluster_api_server_cert_sans_doc, or_new,
  api_san_in, put_api_server,
}
use cluster_api_provider_bri.Config.Document.{
  text, items, fields, Fields, get, put, append, get-put,
}
use cluster_api_provider_bri.Config.InstallDisk.{get_in, new_get}
use cluster_api_provider_bri.Config.Names.{append-contains, has_machine}

-- The cluster section of a document, and its apiServer section.
abbrev pub cluster_of : Fields → Option Fields
cluster_of doc = as_map (get "cluster" doc)

abbrev pub api_server_of : Option Fields → Option Fields
api_server_of cluster = as_map (get_in "apiServer" cluster)

-- Whether a name is among the certificate names of the API server.
abbrev pub has_api_san : Fields → String → Bool
has_api_san doc ip =
    contains_string_any (as_list (get_in "certSANs" (api_server_of (cluster_of doc)))) ip

module _ (ip x : String) (doc : Fields) where
  by_section :
      (cluster : Fields) (old : Option Fields)
      → cluster_of doc ≡ some cluster
      → as_map (get "apiServer" cluster) ≡ old
      → (has_api_san (put_api_server doc cluster (add_san ip (or_new old))) x
          ≡ (if has_api_san doc x then true else ip == x))
        × (has_machine (cluster_of (put_api_server doc cluster (add_san ip (or_new old)))) ≡ true)
  unfolding as_map as_list add_san contains_string_any
  by_section cluster old e f =
      let sans = as_list (get "certSANs" (or_new old)) in
      let section = put "certSANs" (items (append sans (text ip))) (or_new old) in
      let cluster' = put "apiServer" (fields section) cluster in
      let a = get-put "cluster" "cluster" (fields cluster') doc in
      let b = get-put "apiServer" "apiServer" (fields section) cluster in
      let c = get-put "certSANs" "certSANs" (items (append sans (text ip))) (or_new old) in
      let d = append-contains sans ip x in
      let g = new_get "certSANs" old in ground (arith, eq_iff ip x)

  by_cluster :
      (o : Option Fields)
      → cluster_of doc ≡ o
      → (has_api_san (api_san_in ip doc o) x
          ≡ (if has_api_san doc x then true else if has_machine o then ip == x else false))
        × (has_machine (cluster_of (api_san_in ip doc o)) ≡ has_machine o)
  unfolding as_list contains_string_any
  by_cluster none e = ground arith
  by_cluster (some cluster) e = by_section cluster (as_map (get "apiServer" cluster)) e refl

kept_by :
    (ip k : String) (doc cluster : Fields) (o : Option Fields)
    → k ≢ "cluster"
    → get k (put_api_server doc cluster o) ≡ get k doc
kept_by ip k doc cluster none other = refl
kept_by ip k doc cluster (some section) other =
    let a = get-put "cluster" k (fields (put "apiServer" (fields section) cluster)) doc in
    ground (arith, eq_iff "cluster" k)

kept_in :
    (ip k : String) (doc : Fields) (o : Option Fields)
    → k ≢ "cluster"
    → get k (api_san_in ip doc o) ≡ get k doc
kept_in ip k doc none other = refl
kept_in ip k doc (some cluster) other =
    kept_by ip k doc cluster (add_san ip (or_new (as_map (get "apiServer" cluster)))) other

-- After setClusterAPIServerCertSANs a name is among the certificate names of the API server if it
-- was, or is the given address in a document with a cluster section; the other sections are kept.
pub set_cluster_api_server_cert_sans_doc-adds :
    (ip x k : String) (doc : Fields)
    → k ≢ "cluster"
    → (has_api_san (set_cluster_api_server_cert_sans_doc ip doc) x ≡ (
        if has_api_san doc x
        then true
        else if has_machine (cluster_of doc)
        then ip == x
        else false))
      × (has_machine (cluster_of (set_cluster_api_server_cert_sans_doc ip doc))
          ≡ has_machine (cluster_of doc))
      × (get k (set_cluster_api_server_cert_sans_doc ip doc) ≡ get k doc)
unfolding set_cluster_api_server_cert_sans_doc
set_cluster_api_server_cert_sans_doc-adds ip x k doc other =
    let added = by_cluster ip x doc (cluster_of doc) refl in
    (added.0, added.1, kept_in ip k doc (cluster_of doc) other)

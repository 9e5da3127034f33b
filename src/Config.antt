-- ===== src/Config.antt =====
-- The edits of the machine configuration in pkg/controller/talos_apply.go: setInstallDisk,
-- setCertSANs, setClusterAPIServerCertSANs and the functions that decode, edit and encode a
-- configuration. Child modules: Document (the decoded documents), Codec (the loops around yaml.v3), and
-- the proofs about the install disk, the names and the whole edit of a configuration.
pub mod InstallDisk
pub mod Names
pub mod Document
pub mod Codec
pub mod Decodes
pub mod RoundTrip
pub mod Edited
pub mod ApiNames
use cluster_api_provider_bri.Prelude.{
  String, Bool, true, false, Option, none, some, List, [], ◌∷◌, ◌==◌, if◌then◌else◌,
}
use cluster_api_provider_bri.Go.Action.{Result, ok, err}
use Codec.{YamlCodec, decode_machine_config_docs, encode_machine_config_docs}
use Document.{Yaml, text, items, fields, Items, nil, cons, Fields, end, field, get, put, append}

-- v.(map[string]any), nil for another type.
unfoldable pub as_map : Option Yaml → Option Fields
as_map (some (fields f)) = some f
as_map _ = none

-- v.([]any), nil for another type.
unfoldable pub as_list : Option Yaml → Items
as_list (some (items l)) = l
as_list _ = nil

-- containsStringAny
unfoldable pub contains_string_any : Items → String → Bool
contains_string_any nil ip = false
contains_string_any (cons (text s) l) ip = if s == ip then true else contains_string_any l ip
contains_string_any (cons _ l) ip = contains_string_any l ip

unfoldable pub is_set : Option Yaml → Bool
is_set none = false
is_set (some v) = true

abbrev pub or_new : Option Fields → Fields
or_new none = end
or_new (some f) = f

-- The install section with the disk, unless the operator set a disk or a selector.
unfoldable pub fill_disk : String → Fields → Fields
unfolding is_set
fill_disk disk install =
    if is_set (get "disk" install)
    then install
    else if is_set (get "diskSelector" install)
    then install
    else put "disk" (text disk) install

abbrev pub disk_in : String → Fields → Option Fields → Fields
disk_in disk doc none = doc
disk_in disk doc (some machine) =
    put "machine"
      (fields
        (put "install" (fields (fill_disk disk (or_new (as_map (get "install" machine))))) machine))
      doc

-- The body of the loop of setInstallDisk.
unfoldable pub set_install_disk_doc : String → Fields → Fields
unfolding fill_disk as_map
set_install_disk_doc disk doc = disk_in disk doc (as_map (get "machine" doc))

-- The section with the address among its certSANs; `none` where it is there already.
unfoldable pub add_san : String → Fields → Option Fields
unfolding contains_string_any as_list
add_san ip section =
    let sans = as_list (get "certSANs" section) in
    if contains_string_any sans ip
    then none
    else some (put "certSANs" (items (append sans (text ip))) section)

abbrev pub put_section : String → Fields → Option Fields → Fields
put_section key doc none = doc
put_section key doc (some section) = put key (fields section) doc

abbrev pub san_in : String → Fields → Option Fields → Fields
san_in ip doc none = doc
san_in ip doc (some machine) = put_section "machine" doc (add_san ip machine)

-- The body of the loop of setCertSANs.
unfoldable pub set_cert_sans_doc : String → Fields → Fields
unfolding add_san as_map
set_cert_sans_doc ip doc = san_in ip doc (as_map (get "machine" doc))

abbrev pub put_api_server : Fields → Fields → Option Fields → Fields
put_api_server doc cluster none = doc
put_api_server doc cluster (some section) =
    put "cluster" (fields (put "apiServer" (fields section) cluster)) doc

abbrev pub api_san_in : String → Fields → Option Fields → Fields
api_san_in ip doc none = doc
api_san_in ip doc (some cluster) =
    put_api_server doc cluster (add_san ip (or_new (as_map (get "apiServer" cluster))))

-- The body of the loop of setClusterAPIServerCertSANs.
unfoldable pub set_cluster_api_server_cert_sans_doc : String → Fields → Fields
unfolding add_san as_map
set_cluster_api_server_cert_sans_doc ip doc = api_san_in ip doc (as_map (get "cluster" doc))

-- A loop over the documents.
unfoldable pub each_doc : (Fields → Fields) → List Fields → List Fields
each_doc f [] = []
each_doc f (d ∷ docs) = f d ∷ each_doc f docs

-- A loop over the addresses.
unfoldable pub each_ip : (String → Fields → Fields) → List String → List Fields → List Fields
unfolding each_doc
each_ip f [] docs = docs
each_ip f (ip ∷ ips) docs = each_ip f ips (each_doc (f ip) docs)

module _ (y : YamlCodec) where
  abbrev pub edit : (List Fields → List Fields) → Result (List Fields) → Result String
  edit f (ok docs) = encode_machine_config_docs y (f docs)
  edit f (err e) = err e

  unfoldable pub inject_install_disk : String → String → Result String
  unfolding set_install_disk_doc each_doc
  inject_install_disk config disk =
      edit (each_doc (set_install_disk_doc disk)) (decode_machine_config_docs y config)

  unfoldable pub inject_cert_sans : String → List String → Result String
  unfolding set_cert_sans_doc each_ip
  inject_cert_sans config ips =
      edit (each_ip set_cert_sans_doc ips) (decode_machine_config_docs y config)

  unfoldable pub inject_cluster_api_server_cert_sans : String → List String → Result String
  unfolding set_cluster_api_server_cert_sans_doc each_ip
  inject_cluster_api_server_cert_sans config ips =
      edit (each_ip set_cluster_api_server_cert_sans_doc ips) (decode_machine_config_docs y config)

  abbrev pub then_cluster : List String → Result String → Result String
  then_cluster ips (ok config) = inject_cluster_api_server_cert_sans config ips
  then_cluster ips (err e) = err e

  unfoldable pub inject_host_cert_sans : String → List String → Result String
  unfolding inject_cert_sans inject_cluster_api_server_cert_sans
  inject_host_cert_sans config ips = then_cluster ips (inject_cert_sans config ips)

-- ===== src/Config/Decodes.antt =====
-- What the edits of a configuration make of its documents: injectInstallDisk, then
-- injectHostCertSANs (pkg/controller/talos_apply.go, pkg/controller/byotmachine_controller.go).
use cluster_api_provider_bri.Prelude.{
  String, Bool, true, false, List, [], ◌∷◌, ◌++◌, ◌≡◌, ◌∙◌, refl, ap, ◌==◌, if◌then◌else◌,
}
use cluster_api_provider_bri.Go.Action.{Result, ok, err}
use cluster_api_provider_bri.Config.{
  edit, each_doc, each_ip, set_install_disk_doc, set_cert_sans_doc,
  set_cluster_api_server_cert_sans_doc, inject_install_disk, inject_cert_sans,
  inject_cluster_api_server_cert_sans, inject_host_cert_sans, then_cluster,
}
use cluster_api_provider_bri.Config.Codec.{
  YamlCodec, YamlLaws, YamlWrites, decode_machine_config_docs, encode_from,
  encode_machine_config_docs,
}
use cluster_api_provider_bri.Config.Document.{Fields}
use cluster_api_provider_bri.Config.Edited.{
  on_each, edited_doc, each_ip-each_doc, each_doc-twice, IsEdited, edited_doc-IsEdited,
}
use cluster_api_provider_bri.Config.RoundTrip.{decode-edit}

-- The same relation for each document and the document in its place.
abbrev pub Pairwise : (Fields → Fields → Type 0) → List Fields → List Fields → Type 0
Pairwise R [] [] = Unit
Pairwise R (x ∷ xs) (y ∷ ys) = R x y × Pairwise R xs ys
Pairwise R [] (y ∷ ys) = ⊥
Pairwise R (x ∷ xs) [] = ⊥

Pairwise-each_doc :
    (R : Fields → Fields → Type 0) (f : Fields → Fields)
    → ((doc : Fields) → R doc (f doc))
    → (docs : List Fields) → Pairwise R docs (each_doc f docs)
unfolding each_doc
Pairwise-each_doc R f h [] = tt
Pairwise-each_doc R f h (doc ∷ docs) = (h doc, Pairwise-each_doc R f h docs)

module _ (y : YamlCodec) where
  -- `config` decodes to some documents, and `edited` to what `f` makes of each of them.
  abbrev pub Decodes : (Fields → Fields) → String → String → Type 0
  Decodes f config edited =
      (docs : List Fields) × (decode_machine_config_docs y config ≡ ok docs)
      × (decode_machine_config_docs y edited ≡ ok (each_doc f docs))

  module _ (laws : YamlLaws y) (config edited : String) (ips : List String) where
    disk-Decodes :
        (disk : String)
        → inject_install_disk y config disk ≡ ok edited
        → Decodes (set_install_disk_doc disk) config edited
    unfolding inject_install_disk
    disk-Decodes disk e = decode-edit y laws (each_doc (set_install_disk_doc disk)) _ edited e

    loop-Decodes :
        (f : String → Fields → Fields)
        → edit y (each_ip f ips) (decode_machine_config_docs y config) ≡ ok edited
        → Decodes (on_each f ips) config edited
    loop-Decodes f e =
        let (docs, before, later) = decode-edit y laws (each_ip f ips) _ edited e in
        (docs, before, later ∙ ap ok (each_ip-each_doc f ips docs))

    names-Decodes :
        inject_cert_sans y config ips ≡ ok edited
        → Decodes (on_each set_cert_sans_doc ips) config edited
    unfolding inject_cert_sans
    names-Decodes e = loop-Decodes set_cert_sans_doc e

    api_names-Decodes :
        inject_cluster_api_server_cert_sans y config ips ≡ ok edited
        → Decodes (on_each set_cluster_api_server_cert_sans_doc ips) config edited
    unfolding inject_cluster_api_server_cert_sans
    api_names-Decodes e = loop-Decodes set_cluster_api_server_cert_sans_doc e

  compose-Decodes :
      (laws : YamlLaws y) (f g : Fields → Fields) (a b c : String)
      → Decodes f a b
      → Decodes g b c
      → Decodes (λ doc. g (f doc)) a c
  compose-Decodes laws f g a b c (docs, before, between) (docs', before', later) =
      let same : docs' ≡ each_doc f docs = cc in
      (docs, before, later ∙ ap (λ l. ok (each_doc g l)) same ∙ ap ok (each_doc-twice g f docs))

  -- The configuration with the disk, and then with the names.
  abbrev pub with_disk_or_none : String → String → Result String
  with_disk_or_none config disk =
      if disk == "" then ok config else inject_install_disk y config disk

  abbrev pub then_names : List String → Result String → Result String
  then_names ips (ok config) = inject_host_cert_sans y config ips
  then_names ips (err e) = err e

  module _ (laws : YamlLaws y) (ips : List String) where
    hosts_by :
        (config edited : String) (r : Result String)
        → inject_cert_sans y config ips ≡ r
        → then_cluster y ips r ≡ ok edited
        → Decodes
            (λ doc.
              on_each set_cluster_api_server_cert_sans_doc ips (on_each set_cert_sans_doc ips doc))
            config
            edited
    hosts_by config edited (ok between) e f =
        compose-Decodes laws (on_each set_cert_sans_doc ips)
          (on_each set_cluster_api_server_cert_sans_doc ips) config between edited
          (names-Decodes laws config between ips e) (api_names-Decodes laws between edited ips f)
    hosts_by config edited (err x) e f = cc

    hosts-Decodes :
        (config edited : String)
        → inject_host_cert_sans y config ips ≡ ok edited
        → Decodes
            (λ doc.
              on_each set_cluster_api_server_cert_sans_doc ips (on_each set_cert_sans_doc ips doc))
            config
            edited
    unfolding inject_host_cert_sans
    hosts-Decodes config edited e = hosts_by config edited (inject_cert_sans y config ips) refl e

    by_blank :
        (config between edited disk : String) (blank : Bool)
        → (if blank then ok config else inject_install_disk y config disk) ≡ ok between
        → inject_host_cert_sans y between ips ≡ ok edited
        → Decodes
            (λ doc. on_each set_cluster_api_server_cert_sans_doc ips (
              on_each set_cert_sans_doc ips (if blank then doc else set_install_disk_doc disk doc)))
            config
            edited
    by_blank config between edited disk true e f = hosts-Decodes config edited (cc)
    by_blank config between edited disk false e f =
        compose-Decodes laws (set_install_disk_doc disk)
          (λ doc.
            on_each set_cluster_api_server_cert_sans_doc ips (on_each set_cert_sans_doc ips doc))
          config between edited (disk-Decodes laws config between ips disk e)
          (hosts-Decodes between edited f)

    disk_by :
        (config edited disk : String) (r : Result String)
        → with_disk_or_none config disk ≡ r
        → then_names ips r ≡ ok edited
        → Decodes (edited_doc disk ips) config edited
    disk_by config edited disk (err x) e f = cc
    disk_by config edited disk (ok between) e f =
        by_blank config between edited disk (disk == "") e f

  module _ (laws : YamlLaws y) (writes : YamlWrites y) where
    encode_from-writes :
        (written docs : List Fields) → (config : String) × (encode_from y written docs ≡ ok config)
    unfolding encode_from
    encode_from-writes written [] = let (config, e) = writes.closes written in (config, rw e)
    encode_from-writes written (doc ∷ docs) =
        let (config, e) = encode_from-writes (written ++ doc ∷ []) docs in
        (config, rw (writes.encodes written doc) e)

    encode-writes :
        (docs : List Fields) → (config : String) × (encode_machine_config_docs y docs ≡ ok config)
    unfolding encode_machine_config_docs
    encode-writes docs = encode_from-writes [] docs

    -- Whether a configuration decodes.
    abbrev IsYaml : String → Type 0
    IsYaml config = (docs : List Fields) × (decode_machine_config_docs y config ≡ ok docs)

    edit-writes :
        (f : List Fields → List Fields) (config : String)
        → IsYaml config
        → (edited : String) × (edit y f (decode_machine_config_docs y config) ≡ ok edited)
          × IsYaml edited
    edit-writes f config (docs, e) =
        let (edited, written) = encode-writes (f docs) in
        let result = ap (edit y f) e ∙ written in
        let (docs', same, later) = decode-edit y laws f _ edited result in
        (edited, result, (f docs', later))

    with_disk-writes :
        (config disk : String) (blank : Bool)
        → IsYaml config
        → (edited : String) × ((if blank then ok config else inject_install_disk y config disk)
            ≡ ok edited)
          × IsYaml edited
    unfolding inject_install_disk
    with_disk-writes config disk true yaml = (config, refl, yaml)
    with_disk-writes config disk false yaml =
        edit-writes (each_doc (set_install_disk_doc disk)) config yaml

    hosts-writes :
        (config : String) (ips : List String)
        → IsYaml config
        → (edited : String) × (inject_host_cert_sans y config ips ≡ ok edited)
    unfolding inject_host_cert_sans inject_cert_sans inject_cluster_api_server_cert_sans
    hosts-writes config ips yaml =
        let (between, e, yaml') = edit-writes (each_ip set_cert_sans_doc ips) config yaml in
        let (edited, f, yaml'') =
          edit-writes (each_ip set_cluster_api_server_cert_sans_doc ips) between yaml' in
        (edited, ap (then_cluster y ips) e ∙ f)

    -- The edit of a configuration that decodes succeeds, and each document is edited.
    pub IsEdited-then_names :
        (config disk x : String) (ips : List String) (docs : List Fields)
        → decode_machine_config_docs y config ≡ ok docs
        → (edited : String) × (docs' : List Fields) × (then_names ips
              (with_disk_or_none config disk)
            ≡ ok edited)
          × (decode_machine_config_docs y edited ≡ ok docs')
          × Pairwise (IsEdited disk ips x) docs docs'
    IsEdited-then_names config disk x ips docs decoded =
        let (between, e, yaml) = with_disk-writes config disk (disk == "") (docs, decoded) in
        let (edited, f) = hosts-writes between ips yaml in
        let result = ap (then_names ips) e ∙ f in
        let (docs0, before, later) = disk_by laws ips config edited disk _ refl result in
        let same : docs0 ≡ docs = cc in
        (
          edited,
          each_doc (edited_doc disk ips) docs,
          result,
          later ∙ ap (λ l. ok (each_doc (edited_doc disk ips) l)) same,
          Pairwise-each_doc (IsEdited disk ips x) (edited_doc disk ips)
              (edited_doc-IsEdited disk x ips) docs,
        )

-- ===== src/Tests/Config.antt =====
-- The configuration of a machine, edited: two documents, the first with a machine section.
use cluster_api_provider_bri.Prelude.{String, none, List, [], ◌∷◌, ◌≡◌, refl}
use cluster_api_provider_bri.Go.Action.{ok}
use cluster_api_provider_bri.Endpoints.{machine_endpoints}
use cluster_api_provider_bri.Config.Codec.{decode_machine_config_docs, encode_machine_config_docs}
use cluster_api_provider_bri.Config.Decodes.{Pairwise}
use cluster_api_provider_bri.Config.Document.{text, items, fields, nil, cons, Fields, end, field}
use cluster_api_provider_bri.Config.Edited.{IsEdited}
use cluster_api_provider_bri.Config.RoundTrip.{decode-encode}
use cluster_api_provider_bri.MachineController.Adopt.{prepare_config}
use cluster_api_provider_bri.MachineController.Adopt.Edited.{injected_disk, prepare_config-IsEdited}
use cluster_api_provider_bri.Tests.World.{answering}
use cluster_api_provider_bri.Tests.Objects.{holding_machine}
use cluster_api_provider_bri.Tests.Yaml.{
  print_config, printed_yaml, printed_yaml-YamlLaws, printed_yaml-YamlWrites,
}

abbrev machine_doc : Fields
machine_doc =
    field "machine" (fields (field "certSANs" (items (cons (text "10.0.0.9") nil)) end))
      (field "cluster" (fields end) end)

abbrev hostname_doc : Fields
hostname_doc = field "kind" (text "HostnameConfig") end

abbrev two_docs : List Fields
two_docs = machine_doc ∷ hostname_doc ∷ []

two_docs_decode : decode_machine_config_docs printed_yaml (print_config two_docs) ≡ ok two_docs
unfolding encode_machine_config_docs
two_docs_decode =
    decode-encode printed_yaml printed_yaml-YamlLaws two_docs (print_config two_docs) encoded
  where
    encoded : encode_machine_config_docs printed_yaml two_docs ≡ ok (print_config two_docs)
    encoded = refl

prepare_config-IsEdited_example :
    (prepared : String) × (docs' : List Fields) × ((prepare_config printed_yaml answering
        (holding_machine [])
        (print_config two_docs)
        none
        tt).0
      ≡ ok prepared)
    × (decode_machine_config_docs printed_yaml prepared ≡ ok docs')
    × Pairwise
        (IsEdited
          (injected_disk printed_yaml answering
            (holding_machine [])
            (print_config two_docs)
            none
            tt)
          (machine_endpoints (holding_machine []))
          "203.0.113.7")
        two_docs
        docs'
prepare_config-IsEdited_example =
    prepare_config-IsEdited printed_yaml answering (holding_machine []) (print_config two_docs) none
      tt printed_yaml-YamlLaws printed_yaml-YamlWrites "203.0.113.7" two_docs two_docs_decode

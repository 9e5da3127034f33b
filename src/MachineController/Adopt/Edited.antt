-- ===== src/MachineController/Adopt/Edited.antt =====
-- The configuration that applyAndMarkAdopted sends to the machine (resolveInstallDisk and
-- injectHostCertSANs of pkg/controller/byotmachine_controller.go).
use cluster_api_provider_bri.Prelude.{
  String, Bool, true, false, not, Option, List, ◌≡◌, ◌∙◌, refl, ap, ◌==◌, if◌then◌else◌,
}
use cluster_api_provider_bri.Go.Action.{Result, ok, err, handle, pure, lift, continue, branch}
use cluster_api_provider_bri.Api.Machine.{ByotMachine}
use cluster_api_provider_bri.Endpoints.{machine_endpoints}
use cluster_api_provider_bri.Claim.{is_blank, value}
use cluster_api_provider_bri.Config.{inject_install_disk, inject_host_cert_sans}
use cluster_api_provider_bri.Config.Codec.{
  YamlCodec, YamlLaws, YamlWrites, decode_machine_config_docs,
}
use cluster_api_provider_bri.Config.Document.{Fields}
use cluster_api_provider_bri.Config.Edited.{IsEdited}
use cluster_api_provider_bri.Config.Decodes.{
  Pairwise, with_disk_or_none, then_names, IsEdited-then_names,
}
use cluster_api_provider_bri.MachineController.Seams.{MachineSeams}
use cluster_api_provider_bri.MachineController.Adopt.{
  prepare_config, resolve_install_disk, with_disk,
}

-- The disk that is injected: the one of the spec, else the detected one; empty for none.
abbrev pub detected_or_none : Result String → String
detected_or_none (ok disk) = disk
detected_or_none (err e) = ""

abbrev pub install_disk_of : ByotMachine → Result String → String
install_disk_of m detected =
    if is_blank m.spec.install_disk then detected_or_none detected else value m.spec.install_disk

module _ {W : Type 0} (y : YamlCodec) (s : MachineSeams W) (m : ByotMachine) (config : String)
    (cfg : Option String) (w : W) where
  -- The disk that resolveInstallDisk injects in the world `w`.
  abbrev pub injected_disk : String
  injected_disk = install_disk_of m (s.detect_system_disk (machine_endpoints m) cfg w).0

  by_disk :
      (blank : Bool) (r : Result String) (w' : W)
      → ((if blank then pure config else lift r) w').0 ≡ (if blank then ok config else r)
  by_disk true r w' = refl
  by_disk false r w' = refl

  with_disk-result :
      (disk : String) (w' : W) → (with_disk y s config disk w').0 ≡ with_disk_or_none y config disk
  with_disk-result disk w' = by_disk (disk == "") (inject_install_disk y config disk) w'

  by_detection :
      (r : Result String × W)
      → (branch r (λ e. with_disk y s config "") (with_disk y s config)).0
        ≡ with_disk_or_none y config (detected_or_none r.0)
  by_detection (ok disk, w') = with_disk-result disk w'
  by_detection (err e, w') = refl

  by_blankness :
      (blank : Bool)
      → ((if not blank
            then with_disk y s config (value m.spec.install_disk)
            else handle
                (s.detect_system_disk (machine_endpoints m) cfg)
                (λ e. with_disk y s config "")
                (with_disk y s config))
          w).0
        ≡ with_disk_or_none y config (
            if blank
            then detected_or_none (s.detect_system_disk (machine_endpoints m) cfg w).0
            else value m.spec.install_disk)
  by_blankness true = by_detection (s.detect_system_disk (machine_endpoints m) cfg w)
  by_blankness false = with_disk-result (value m.spec.install_disk) w

  resolve_install_disk-disk :
      (resolve_install_disk y s m config cfg w).0 ≡ with_disk_or_none y config injected_disk
  unfolding resolve_install_disk
  resolve_install_disk-disk = by_blankness (is_blank m.spec.install_disk)

  by_result :
      (r : Result String × W)
      → (continue r (λ c. lift (inject_host_cert_sans y c (machine_endpoints m)))).0
        ≡ then_names y (machine_endpoints m) r.0
  by_result (ok c, w') = refl
  by_result (err e, w') = refl

  prepare_config-names :
      (prepare_config y s m config cfg w).0
      ≡ then_names y (machine_endpoints m) (with_disk_or_none y config injected_disk)
  unfolding prepare_config
  prepare_config-names =
      by_result (resolve_install_disk y s m config cfg w)
      ∙ ap (then_names y (machine_endpoints m)) resolve_install_disk-disk

  -- If the bootstrap configuration decodes, the edits before the apply succeed, and what they send
  -- decodes to as many documents in the same order, each as IsEdited says: with the install disk of
  -- the spec, or else the detected one, and with the endpoints of the machine among its names.
  pub prepare_config-IsEdited :
      (laws : YamlLaws y) (writes : YamlWrites y) (x : String) (docs : List Fields)
      → decode_machine_config_docs y config ≡ ok docs
      → (prepared : String) × (docs' : List Fields) × ((prepare_config y s m config cfg w).0
          ≡ ok prepared)
        × (decode_machine_config_docs y prepared ≡ ok docs')
        × Pairwise (IsEdited injected_disk (machine_endpoints m) x) docs docs'
  prepare_config-IsEdited laws writes x docs decoded =
      let (prepared, docs', sent, later, edited) =
        IsEdited-then_names y laws writes config injected_disk x (machine_endpoints m) docs
          decoded in
      (prepared, docs', prepare_config-names ∙ sent, later, edited)

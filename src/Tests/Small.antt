-- ===== src/Tests/Small.antt =====
-- Runs of the cluster controller, the count of GPUs, a refused apply and an upgrade.
use cluster_api_provider_bri.Prelude.{
  String, Bool, true, false, none, some, [], ◌∷◌, ◌≡◌, refl, arith,
}
use cluster_api_provider_bri.Prelude.Int.{pos}
use cluster_api_provider_bri.Go.{upgrade_exit_code, other}
use cluster_api_provider_bri.Go.Action.{ok, err}
use cluster_api_provider_bri.Api.Meta.{ObjectKey}
use cluster_api_provider_bri.ClusterController.{
  OneCluster, keeping, mark_cluster_ready, reconcile, reconcile-ready,
}
use cluster_api_provider_bri.Discovery.Gpu.{PciDevice, gpu_pair, discover_gpus}
use cluster_api_provider_bri.Discovery.Gpu.Count.{gpus, count_of, discover_gpus-count}
use cluster_api_provider_bri.Config.Codec.{YamlCodec}
use cluster_api_provider_bri.MachineController.Seams.{MachineSeams}
use cluster_api_provider_bri.TalosApply.{
  TalosClient, Stream, Progress, message, exit_code, run_lifecycle_upgrade, authenticated_client,
  upgrade_machine,
}
use cluster_api_provider_bri.TalosApply.Upgrade.{
  run_lifecycle_upgrade-verdict, upgrade_machine-verdict, reboot_after,
}
use cluster_api_provider_bri.Tests.World.{answering}
use cluster_api_provider_bri.Tests.Objects.{meta_of, no_conditions}

abbrev new_cluster : OneCluster
new_cluster = record {
  stored = record {
    meta = meta_of "prod" "c1" [];
    status = record { ready = false; conditions = no_conditions };
  };
  patches = 0;
}

abbrev prod : ObjectKey
prod = record { namespace = "default"; name = "prod" }

reconcile-ready_example :
    ((reconcile keeping prod new_cluster).1.stored ≡ mark_cluster_ready new_cluster.stored)
    × ((reconcile keeping prod new_cluster).1.patches ≡ 1)
    × ((reconcile keeping prod ((reconcile keeping prod new_cluster).1)).1
        ≡ (reconcile keeping prod new_cluster).1)
reconcile-ready_example = reconcile-ready prod new_cluster refl

abbrev gpu_device : PciDevice
gpu_device = record { class_id = "0x03"; vendor_id = "0x10DE"; product_id = "0x2330" }

two_gpus : gpus (gpu_device ∷ gpu_device ∷ []) ≡ 2
unfolding gpu_pair
two_gpus = refl

discover_gpus-count_example :
    count_of (discover_gpus (some (gpu_device ∷ gpu_device ∷ [])))
    ≡ pos (gpus (gpu_device ∷ gpu_device ∷ []))
discover_gpus-count_example =
    discover_gpus-count (gpu_device ∷ gpu_device ∷ []) (ground (arith, two_gpus))

-- A machine that refuses every configuration.
abbrev refusing : MachineSeams (Unit {0})
refusing = record answering { apply_machine_config = λ e c k w. (err (other "refused"), w) }

abbrev no_yaml : YamlCodec
no_yaml = record { decode = λ s. []; encode = λ w d. none; close = λ d. ok "" }

-- An upgrade that prints a line and fails with exit code 3.
abbrev failing_stream : Stream Progress
failing_stream = record {
  received = message "writing" ∷ exit_code (pos 3) ∷ exit_code (pos 0) ∷ [];
  failure = none;
}

-- The world says whether a reboot was asked for; the answer to that is an error.
abbrev pub talos : Stream Progress → TalosClient Bool String String String
talos stream = record {
  parse_config = λ cfg w. (ok cfg, w);
  new_maintenance = λ e w. (ok "maintenance", w);
  new_authenticated = λ e k w. (ok k, w);
  apply_configuration = λ t c w. (ok tt, w);
  version = λ t w. (ok (some "v1.9.0" ∷ []), w);
  pull = λ t i w. (ok (record { received = []; failure = none }), w);
  upgrade = λ t i w. (ok stream, w);
  read = λ t p w. (ok p, w);
  read_all = λ r w. (ok "boot-1", w);
  close = λ r w. (ok tt, w);
  reboot_machine = λ t w. (err (other "closed"), true);
  service_restart = λ t n w. (ok tt, w);
  service_info = λ t n w. (ok [], w);
  reset_generic = λ t q w. (ok tt, w);
  disks = λ t w. (ok [], w);
  is_permission_denied = λ e. false;
}

run_lifecycle_upgrade-verdict_example :
    run_lifecycle_upgrade (talos failing_stream) "cfg" "installer:v1.9.0" false
    ≡ (err (upgrade_exit_code (pos 3) "writing"), false)
run_lifecycle_upgrade-verdict_example =
    run_lifecycle_upgrade-verdict (talos failing_stream) "cfg" "installer:v1.9.0" failing_stream
      false false refl

-- An upgrade that succeeds.
abbrev pub complete_stream : Stream Progress
complete_stream = record { received = message "writing" ∷ exit_code (pos 0) ∷ []; failure = none }

talos_client :
    authenticated_client (talos complete_stream) ("10.0.0.2" ∷ []) "cfg" false ≡ (ok "cfg", false)
unfolding authenticated_client
talos_client = refl

-- The boot id of the answer, though the reboot is refused.
upgrade_machine-verdict_example :
    upgrade_machine (talos complete_stream) ("10.0.0.2" ∷ []) "cfg" "installer:v1.9.0" false
    ≡ reboot_after (talos complete_stream) "cfg" false
upgrade_machine-verdict_example =
    upgrade_machine-verdict (talos complete_stream) ("10.0.0.2" ∷ []) "cfg" "installer:v1.9.0" "cfg"
      (record { received = []; failure = none }) complete_stream false false false false
      talos_client refl refl

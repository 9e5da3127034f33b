-- ===== src/MachineController/Wiring.antt =====
-- NewByotMachineReconciler of pkg/controller/byotmachine_controller.go: the functions on a Talos
-- machine that the reconciler calls are those of pkg/controller/talos_apply.go.
use cluster_api_provider_bri.Prelude.{String, Option, none, some}
use cluster_api_provider_bri.Go.{no_reset_credentials}
use cluster_api_provider_bri.Go.Action.{raise}
use cluster_api_provider_bri.Client.{MachineClient}
use cluster_api_provider_bri.TalosApply.{
  TalosClient, apply_machine_config, version_probe_authenticated, upgrade_machine,
  boot_id_authenticated, probe_maintenance, probe_authenticated, restart_service, service_running,
  reset_machine, detect_system_disk,
}
use cluster_api_provider_bri.MachineController.Seams.{MachineSeams}
use cluster_api_provider_bri.MachineController.Delete.{reset_adopted_host_impl}

-- A nil talosconfig is read as an empty one.
abbrev bytes_of : Option String → String
bytes_of none = ""
bytes_of (some cfg) = cfg

module _ {W K T R : Type 0} (tc : TalosClient W K T R) where
  -- The functions of talos_apply.go; a reset of the adopted host is set below.
  unfoldable pub talos_seams : MachineSeams W
  talos_seams = record {
    probe_maintenance = probe_maintenance tc;
    probe_authenticated = probe_authenticated tc;
    version_probe_authenticated = version_probe_authenticated tc;
    upgrade_machine = upgrade_machine tc;
    boot_id_authenticated = boot_id_authenticated tc;
    reset_adopted_host = λ m. raise no_reset_credentials;
    apply_machine_config = apply_machine_config tc;
    reset_machine = reset_machine tc;
    detect_system_disk = detect_system_disk tc;
    service_running = λ e cfg n. service_running tc e (bytes_of cfg) n;
    restart_service = λ e cfg n. restart_service tc e (bytes_of cfg) n;
  }

  unfoldable pub machine_seams : MachineClient W → MachineSeams W
  machine_seams mc = record talos_seams {
    reset_adopted_host = reset_adopted_host_impl mc talos_seams;
  }

-- ===== src/Tests/Upgrade.antt =====
-- A run of the upgrade state machine on a machine whose upgrade failed.
use cluster_api_provider_bri.Prelude.{[]}
use cluster_api_provider_bri.Api.Machine.{failed}
use cluster_api_provider_bri.MachineController.Trace.{
  traced_machines, traced_hosts, traced_seams, trace,
}
use cluster_api_provider_bri.MachineController.Upgrade.Poll.{ensure_talos_version}
use cluster_api_provider_bri.MachineController.Upgrade.Diagram.{IsPath}
use cluster_api_provider_bri.MachineController.Upgrade.Follows.{ensure_talos_version-IsPath}
use cluster_api_provider_bri.Tests.World.{util, serving, with_cluster, answering}
use cluster_api_provider_bri.Tests.Objects.{
  free_host, talos_secret, cluster_without_control_plane, worker, machine_reconciler,
  upgrading_machine,
}

ensure_talos_version-IsPath_example : IsPath (upgrading_machine failed) (
    trace (
      ensure_talos_version util
        (traced_hosts (serving free_host))
        (traced_machines (with_cluster talos_secret cluster_without_control_plane worker))
        (traced_seams answering)
        machine_reconciler
        (upgrading_machine failed)
        (upgrading_machine failed)
        worker
        (tt, [])))
ensure_talos_version-IsPath_example =
    ensure_talos_version-IsPath util (serving free_host)
      (with_cluster talos_secret cluster_without_control_plane worker) answering machine_reconciler
      (upgrading_machine failed) (upgrading_machine failed) worker tt

-- ===== src/Tests/Quiet.antt =====
-- A linked machine whose owner has no nodeRef yet: the retrigger annotation is written.
use cluster_api_provider_bri.Prelude.{false, true, none, some, [], ◌∷◌, ◌≡◌, refl, any}
use cluster_api_provider_bri.Prelude.Dict.{lookup}
use cluster_api_provider_bri.Api.Machine.{ByotMachine, no_upgrade}
use cluster_api_provider_bri.MachineController.Link.{ensure_node_linked}
use cluster_api_provider_bri.MachineController.Link.Quiet.{wakes, ensure_node_linked-quiet}
use cluster_api_provider_bri.MachineController.Trace.{traced_hosts, traced_machines, trace}
use cluster_api_provider_bri.Tests.Workload.{workload, unconnected, all_valid}
use cluster_api_provider_bri.Tests.World.{serving, with_cluster}
use cluster_api_provider_bri.Tests.Objects.{
  free_host, machine_in, worker, machine_reconciler, talos_secret, cluster_without_control_plane,
}

abbrev ready_machine : ByotMachine
ready_machine =
    let m = machine_in "host-a" true no_upgrade none none [] in
    record m {
      meta = record m.meta { annotations = ("owner", "ops") ∷ [] };
      spec = record m.spec { provider_id = some "byot://203.0.113.7" };
    }

ensure_node_linked-quiet_example :
    any (wakes ready_machine.meta) (
      trace (
        ensure_node_linked
          (traced_hosts (serving free_host))
          (traced_machines (with_cluster talos_secret cluster_without_control_plane worker))
          workload
          unconnected
          all_valid
          machine_reconciler
          ready_machine
          ready_machine
          worker
          (tt, [])))
    ≡ false
unfolding lookup
ensure_node_linked-quiet_example =
    ensure_node_linked-quiet (serving free_host)
      (with_cluster talos_secret cluster_without_control_plane worker) workload unconnected
      all_valid machine_reconciler ready_machine ready_machine worker tt (refl, tt)

-- ===== src/Tests/Machines.antt =====
-- Runs of the machine controller.
use cluster_api_provider_bri.Prelude.{
  any, String, false, none, some, [], ◌∷◌, ◌≡◌, ◌↔◌, refl, arith, ne_of_eq-false,
}
use cluster_api_provider_bri.Prelude.Int.{pos}
use cluster_api_provider_bri.Prelude.Dict.{Dict, lookup}
use cluster_api_provider_bri.Go.{other}
use cluster_api_provider_bri.Go.Action.{ok, err}
use cluster_api_provider_bri.Api.Meta.{ObjectMeta}
use cluster_api_provider_bri.Api.Machine.{in_flight, failed}
use cluster_api_provider_bri.Config.Codec.{YamlCodec}
use cluster_api_provider_bri.MachineController.Options.{upgrade_threshold}
use cluster_api_provider_bri.MachineController.Watch.{
  self_filter_update, node_link_retrigger_annotation,
}
use cluster_api_provider_bri.MachineController.Watch.SelfFilter.{
  self_filter_update-false, DifferInRetrigger,
}
use cluster_api_provider_bri.MachineController.Trace.{
  traced_machines, traced_hosts, traced_seams, trace,
}
use cluster_api_provider_bri.MachineController.Adopt.{apply_and_mark_adopted}
use cluster_api_provider_bri.MachineController.Adopt.Spares.{harms, apply_and_mark_adopted-waits}
use cluster_api_provider_bri.MachineController.Upgrade.GivesUp.{polls, upgrade_state-polls}
use cluster_api_provider_bri.Tests.Workload.{workload, connected, all_valid}
use cluster_api_provider_bri.Tests.World.{util, serving, with_cluster, answering}
use cluster_api_provider_bri.Tests.Objects.{
  free_host, holding_machine, upgrading_machine, worker, cluster_without_control_plane,
  talos_secret, machine_reconciler, meta_of,
}

threshold : upgrade_threshold machine_reconciler ≡ pos 2
unfolding upgrade_threshold
threshold = refl

upgrade_state-polls_example :
    (polls util
      (serving free_host)
      machine_reconciler
      "cfg"
      (err (other "unreachable"))
      worker
      2
      (upgrading_machine in_flight)).status.upgrade_state
    ≡ failed
upgrade_state-polls_example =
    upgrade_state-polls util (serving free_host) machine_reconciler "cfg" "installer:v1.9.0"
      (err (other "unreachable")) worker 2 2 (upgrading_machine in_flight)
      (ne_of_eq-false "cfg" "" refl) threshold (omega arith) (omega arith) refl
      (ne_of_eq-false "installer:v1.9.0" "" refl) refl refl refl

-- A workload cluster that has the Node.
abbrev no_yaml : YamlCodec
no_yaml = record { decode = λ s. []; encode = λ w d. none; close = λ d. ok "" }

worker_without_label : lookup "cluster.x-k8s.io/control-plane" worker.meta.labels ≡ none
unfolding lookup
worker_without_label = refl

apply_and_mark_adopted-waits_example :
    any harms (
      trace (
        apply_and_mark_adopted util
          (traced_hosts (serving free_host))
          (traced_machines (with_cluster talos_secret cluster_without_control_plane worker))
          workload
          connected
          all_valid
          no_yaml
          (traced_seams answering)
          machine_reconciler
          (holding_machine [])
          worker
          "config"
          "hash"
          (holding_machine [])
          (tt, [])))
    ≡ false
apply_and_mark_adopted-waits_example =
    apply_and_mark_adopted-waits util (serving free_host)
      (with_cluster talos_secret cluster_without_control_plane worker) workload connected all_valid
      no_yaml answering machine_reconciler (holding_machine []) (holding_machine []) worker "config"
      "hash" tt refl worker_without_label (λ k x. refl)

abbrev host_labels : Dict String
host_labels = ("byot.io/arch", "amd64") ∷ []

abbrev no_entries : Dict String
no_entries = []

abbrev bumped : ObjectMeta
bumped = record (meta_of "m1" "u1" []) { annotations = (node_link_retrigger_annotation, "1") ∷ [] }

bumped-distinct : lookup node_link_retrigger_annotation no_entries ≡ none
unfolding lookup
bumped-distinct = refl

self_filter_update-false_example :
    (self_filter_update (some (meta_of "m1" "u1" [])) (some bumped) ≡ false)
    ↔ ((pos 1 ≡ pos 1) × DifferInRetrigger [] ((node_link_retrigger_annotation, "1") ∷ []))
self_filter_update-false_example =
    self_filter_update-false (meta_of "m1" "u1" []) bumped tt (bumped-distinct, tt)

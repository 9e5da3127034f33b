-- ===== src/Tests/Credentials.antt =====
-- A reset of a machine whose cluster has a talosconfig that the machine refuses.
use cluster_api_provider_bri.Prelude.{String, Option, some, none, List, [], ◌∷◌, ◌≡◌, refl}
use cluster_api_provider_bri.Prelude.Dict.{lookup}
use cluster_api_provider_bri.Go.{other}
use cluster_api_provider_bri.Go.Action.{ok}
use cluster_api_provider_bri.Api.Machine.{ByotMachine}
use cluster_api_provider_bri.Client.{MachineClient}
use cluster_api_provider_bri.Release.Attempts.{Answers, answer}
use cluster_api_provider_bri.MachineController.Seams.{MachineSeams}
use cluster_api_provider_bri.MachineController.Delete.{reset_adopted_host_impl}
use cluster_api_provider_bri.MachineController.Delete.Credentials.{
  Stored, read, reset_adopted_host_impl-tried,
}
use cluster_api_provider_bri.Tests.World.{with_cluster, answering}
use cluster_api_provider_bri.Tests.Objects.{
  holding_machine, worker, talos_secret, cluster_without_control_plane,
}

abbrev Tried : Type 0
Tried = List (Option String)

abbrev labelled_machine : ByotMachine
labelled_machine =
    let m = holding_machine [] in
    record m { meta = record m.meta { labels = ("cluster.x-k8s.io/cluster-name", "prod") ∷ [] } }

abbrev every_secret : Stored
every_secret key = some talos_secret

abbrev secrets : MachineClient Tried
secrets = record (with_cluster talos_secret cluster_without_control_plane worker) {
  get_secret = λ k w. (read (every_secret k), w);
}

-- Only the maintenance client may reset the machine.
abbrev refuses_configs : Answers
refuses_configs none = none
refuses_configs (some cfg) = some (other "unauthorized")

abbrev recording : MachineSeams Tried
recording = record answering { reset_machine = λ e c w. (answer (refuses_configs c), c ∷ w) }

reset_adopted_host_impl-tried_example :
    reset_adopted_host_impl secrets recording labelled_machine [] ≡ (ok tt, none ∷ some "cfg" ∷ [])
unfolding lookup
reset_adopted_host_impl-tried_example =
    reset_adopted_host_impl-tried secrets recording every_secret refuses_configs labelled_machine []
      (λ k x. refl) (λ e c x. refl)

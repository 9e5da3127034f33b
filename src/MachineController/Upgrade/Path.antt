-- ===== src/MachineController/Upgrade/Path.antt =====
-- The whole upgrade state machine follows the diagram (ensureTalosVersion of
-- pkg/controller/byotmachine_controller.go).
use cluster_api_provider_bri.Prelude.{String, true, some, List, ◌≡◌, arith}
use cluster_api_provider_bri.Api.Meta.{Util}
use cluster_api_provider_bri.Api.Machine.{ByotMachine}
use cluster_api_provider_bri.Api.Cluster.{Machine}
use cluster_api_provider_bri.Client.{HostClient, MachineClient}
use cluster_api_provider_bri.Endpoints.{machine_endpoints}
use cluster_api_provider_bri.MachineController.Options.{MachineReconciler, upgrade_threshold}
use cluster_api_provider_bri.MachineController.Seams.{MachineSeams, Awaited, wait, have}
use cluster_api_provider_bri.MachineController.Secrets.{await_cluster_talos_config}
use cluster_api_provider_bri.MachineController.Trace.{
  Event, traced_machines, traced_hosts, traced_seams,
}
use cluster_api_provider_bri.MachineController.Trace.Keeps.{Keeps, Keeps-quiet}
use cluster_api_provider_bri.MachineController.Trace.Leads.{Leads, Leads-handle, Leads-bind}
use cluster_api_provider_bri.MachineController.Upgrade.{note_version}
use cluster_api_provider_bri.MachineController.Upgrade.Poll.{
  upgrade_in_flight, upgrade_in_flight_version_fallback, upgrade_in_flight_boot_id_gate,
  complete_by_boot_id, poll_again, poll, note_poll,
}
use cluster_api_provider_bri.MachineController.Upgrade.Prepared.{runs}
use cluster_api_provider_bri.MachineController.Upgrade.Diagram.{
  IsPath, Agrees, FollowsDiagram, last_sent, is_live, stays, failure-IsPath, complete-IsPath,
}

-- A trace that follows the diagram and ends with the machine in hand.
abbrev pub EndsIn : ByotMachine → ByotMachine → List Event → Type 0
EndsIn m g t = IsPath m t × Agrees (last_sent m t) g

module _ {W : Type 0} (u : Util) (hc : HostClient W) (mc : MachineClient W) (s : MachineSeams W)
    (r : MachineReconciler) (m : ByotMachine) where
  again-IsPath :
      (helper g : ByotMachine) (w : W) (t : List Event)
      → is_live g.status.upgrade_state ≡ true
      → EndsIn m g t
      → IsPath m (
          runs
            (poll_again u (traced_hosts hc) (traced_machines mc) (traced_seams s) r helper g)
            w
            t)
  unfolding poll_again
  again-IsPath helper g w t live p =
      let h = last_sent m t in
      let sent : FollowsDiagram h g = rw p.1.0 (stays g.status.upgrade_state h g live p.1.1) in
      ground arith

  fallback-IsPath :
      (helper g : ByotMachine) (cfg v : String)
      → is_live g.status.upgrade_state ≡ true
      → g.spec.desired_talos_version ≡ some v
      → Leads (EndsIn m g) (IsPath m) (
          upgrade_in_flight_version_fallback u
            (traced_hosts hc)
            (traced_machines mc)
            (traced_seams s)
            r
            helper
            g
            cfg)
  unfolding upgrade_in_flight_version_fallback note_poll
  fallback-IsPath helper g cfg v live want =
      Leads-handle {A = String} _ _ _
        (Keeps-quiet (s.version_probe_authenticated (machine_endpoints g) cfg))
        (λ e. record {
          run = λ w t p.
              failure-IsPath u hc mc s r m helper g (upgrade_threshold r) "UpgradeFailed" true w t
                live p.1 p.0;
        })
        (λ tag. record {
          run = λ w t p.
              let again = again-IsPath helper (note_poll tag g) w t live p in
              let done =
                complete-IsPath u hc mc s r m helper (note_poll tag g) v w t live want p.1 p.0 in
              ground arith;
        })

  by_boot_id-IsPath :
      (helper g : ByotMachine) (cfg v : String)
      → is_live g.status.upgrade_state ≡ true
      → g.spec.desired_talos_version ≡ some v
      → Leads (EndsIn m g) (IsPath m) (
          complete_by_boot_id u
            (traced_hosts hc)
            (traced_machines mc)
            (traced_seams s)
            r
            helper
            g
            cfg)
  unfolding complete_by_boot_id note_version
  by_boot_id-IsPath helper g cfg v live want =
      Leads-handle {A = String} _ _ _
        (Keeps-quiet (s.version_probe_authenticated (machine_endpoints g) cfg))
        (λ e. record {
          run = λ w t p. complete-IsPath u hc mc s r m helper g v w t live want p.1 p.0;
        })
        (λ tag. record {
          run = λ w t p.
              let done = complete-IsPath u hc mc s r m helper g v w t live want p.1 p.0 in
              let noted =
                complete-IsPath u hc mc s r m helper (note_version tag g) v w t live want p.1 p.0 in
              ground arith;
        })

  gate-IsPath :
      (helper g : ByotMachine) (cfg pre v : String)
      → is_live g.status.upgrade_state ≡ true
      → g.spec.desired_talos_version ≡ some v
      → Leads (EndsIn m g) (IsPath m) (
          upgrade_in_flight_boot_id_gate u
            (traced_hosts hc)
            (traced_machines mc)
            (traced_seams s)
            r
            helper
            g
            cfg
            pre)
  unfolding upgrade_in_flight_boot_id_gate
  gate-IsPath helper g cfg pre v live want =
      Leads-handle {A = String} _ _ _
        (Keeps-quiet (s.boot_id_authenticated (machine_endpoints g) cfg))
        (λ e. record {
          run = λ w t p.
              let failed =
                failure-IsPath u hc mc s r m helper g (upgrade_threshold r) "UpgradeFailed" true w t
                  live p.1 p.0 in
              let hidden = (fallback-IsPath helper g cfg v live want).run w t p in ground arith;
        })
        (λ booted. record {
          run = λ w t p.
              let done = (by_boot_id-IsPath helper g cfg v live want).run w t p in
              let again = again-IsPath helper g w t live p in ground arith;
        })

  pub await-EndsIn :
      (name : String) (g : ByotMachine)
      → Keeps (EndsIn m g) (await_cluster_talos_config (traced_machines mc) r name g)
  unfolding await_cluster_talos_config
  await-EndsIn name g = record { run = λ w t p. grind arith }

  poll-IsPath :
      (helper g : ByotMachine) (v : String) (a : Awaited String)
      → is_live g.status.upgrade_state ≡ true
      → g.spec.desired_talos_version ≡ some v
      → Leads
          (EndsIn m g)
          (IsPath m)
          (poll u (traced_hosts hc) (traced_machines mc) (traced_seams s) r helper g a)
  poll-IsPath helper g v (wait res) live want = record { run = λ w t p. p.0 }
  poll-IsPath helper g v (have cfg) live want = record {
    run = λ w t p.
        let gated =
          (gate-IsPath helper g cfg g.status.upgrade_pre_reboot_boot_id v live want).run w t p in
        let hidden = (fallback-IsPath helper g cfg v live want).run w t p in ground arith;
  }

  pub in_flight-IsPath :
      (helper g : ByotMachine) (machine : Machine) (v : String)
      → is_live g.status.upgrade_state ≡ true
      → g.spec.desired_talos_version ≡ some v
      → Leads (EndsIn m g) (IsPath m) (
          upgrade_in_flight u
            (traced_hosts hc)
            (traced_machines mc)
            (traced_seams s)
            r
            helper
            g
            machine)
  unfolding upgrade_in_flight
  in_flight-IsPath helper g machine v live want =
      Leads-bind {A = Awaited String} _ _ (await-EndsIn machine.cluster_name g) (λ t p. p.0)
        (λ a. poll-IsPath helper g v a live want)

-- ===== src/MachineController/Upgrade/Prepared.antt =====
-- When a trace of the upgrade state machine prepares its upgrades, and the steps that keep it so: a
-- failure, the end of an upgrade and its polls (pkg/controller/byotmachine_controller.go).
use cluster_api_provider_bri.Prelude.{
  String, Bool, true, false, some, List, [], ◌∷◌, ◌≡◌, ◌≢◌, arith,
}
use cluster_api_provider_bri.Prelude.Int.{ℤ}
use cluster_api_provider_bri.Go.Action.{M}
use cluster_api_provider_bri.Api.Meta.{Util}
use cluster_api_provider_bri.Api.Machine.{ByotMachine, in_flight}
use cluster_api_provider_bri.Api.Cluster.{Machine}
use cluster_api_provider_bri.Client.{HostClient, MachineClient}
use cluster_api_provider_bri.Endpoints.{machine_endpoints}
use cluster_api_provider_bri.MachineController.Options.{MachineReconciler, upgrade_threshold}
use cluster_api_provider_bri.MachineController.Seams.{MachineSeams, Awaited, wait, have}
use cluster_api_provider_bri.MachineController.Trace.Keeps.{
  Keeps, Keeps-pure, Keeps-quiet, Keeps-handle, Keeps-bind,
}
use cluster_api_provider_bri.MachineController.Trace.{
  Event, patched_machine, upgraded, Traced, traced_machines, traced_hosts, traced_seams, trace,
}
use cluster_api_provider_bri.MachineController.Secrets.{await_cluster_talos_config}
use cluster_api_provider_bri.MachineController.Upgrade.{
  upgrade_already_applied, finalize_upgrade_failure, clear_after_reset,
  record_upgrade_probe_failure, give_up, count_probe_failure, mark_upgrade_complete,
  sync_host_talos_version, mirror_version,
}
use cluster_api_provider_bri.MachineController.Upgrade.Poll.{
  upgrade_in_flight, upgrade_in_flight_version_fallback, upgrade_in_flight_boot_id_gate,
  complete_by_boot_id, poll_again, poll,
}

-- What allows the call of an upgrade to `v`, after the events `before`: the patch just before
-- stored the machine as in flight for its generation; the machine is Ready and wants `v`.
abbrev pub IsPrepared : ByotMachine → String → List Event → Type 0
IsPrepared m v [] = ⊥
IsPrepared m v (patched_machine g ∷ before) =
    (g.status.upgrade_state ≡ in_flight)
    × (g.status.upgrade_attempt_generation ≡ m.meta.generation)
    × (m.spec.desired_talos_version ≡ some v)
    × (v ≢ "")
    × (m.status.ready ≡ true)
    × (upgrade_already_applied m v ≡ false)
IsPrepared m v (x ∷ before) = ⊥

-- Every upgrade of a trace is prepared by the events before it.
abbrev pub IsOrdered : ByotMachine → List Event → Type 0
IsOrdered m [] = Unit
IsOrdered m (upgraded v ∷ before) = IsPrepared m v before × IsOrdered m before
IsOrdered m (x ∷ before) = IsOrdered m before

-- The trace of a run from the trace `t`.
abbrev pub runs : {W A : Type 0} → M (Traced W) A → W → List Event → List Event
runs m w t = trace (m (w, t))

module _ {W : Type 0} (u : Util) (hc : HostClient W) (mc : MachineClient W) (s : MachineSeams W)
    (r : MachineReconciler) (m : ByotMachine) where
  pub finalize-IsOrdered :
      (g : ByotMachine) (reason : String) (w : W) (t : List Event)
      → IsOrdered m t
      → IsOrdered m
          (runs (finalize_upgrade_failure u (traced_machines mc) (traced_seams s) r g reason) w t)
  unfolding finalize_upgrade_failure clear_after_reset
  finalize-IsOrdered g reason w t o = grind arith

  pub failure-IsOrdered :
      (helper g : ByotMachine) (n : ℤ) (reason : String) (resets : Bool) (w : W) (t : List Event)
      → IsOrdered m t
      → IsOrdered m (
          runs
            (record_upgrade_probe_failure u
              (traced_machines mc)
              (traced_seams s)
              r
              helper
              g
              n
              reason
              resets)
            w
            t)
  unfolding record_upgrade_probe_failure give_up
  failure-IsOrdered helper g n reason resets w t o =
      let g' = count_probe_failure g in
      let w1 = (mc.patch_machine helper g' w).1 in
      let ended = finalize-IsOrdered g' reason w1 (patched_machine g' ∷ t) o in ground arith

  pub complete-IsOrdered :
      (helper g : ByotMachine) (w : W) (t : List Event)
      → IsOrdered m t
      → IsOrdered m
          (runs (mark_upgrade_complete u (traced_hosts hc) (traced_machines mc) helper g) w t)
  unfolding mark_upgrade_complete sync_host_talos_version mirror_version
  complete-IsOrdered helper g w t o = grind arith

  fallback-IsOrdered :
      (helper g : ByotMachine) (cfg : String) (w : W) (t : List Event)
      → IsOrdered m t
      → IsOrdered m (
          runs
            (upgrade_in_flight_version_fallback u
              (traced_hosts hc)
              (traced_machines mc)
              (traced_seams s)
              r
              helper
              g
              cfg)
            w
            t)
  unfolding upgrade_in_flight_version_fallback poll_again
  fallback-IsOrdered helper g cfg w t o = grind (arith, failure-IsOrdered, complete-IsOrdered)

  by_boot_id-IsOrdered :
      (helper g : ByotMachine) (cfg : String) (w : W) (t : List Event)
      → IsOrdered m t
      → IsOrdered m (
          runs
            (complete_by_boot_id u
              (traced_hosts hc)
              (traced_machines mc)
              (traced_seams s)
              r
              helper
              g
              cfg)
            w
            t)
  unfolding complete_by_boot_id
  by_boot_id-IsOrdered helper g cfg w t o = grind (arith, complete-IsOrdered)

  again-IsOrdered :
      (helper g : ByotMachine) (w : W) (t : List Event)
      → IsOrdered m t
      → IsOrdered m (
          runs
            (poll_again u (traced_hosts hc) (traced_machines mc) (traced_seams s) r helper g)
            w
            t)
  unfolding poll_again
  again-IsOrdered helper g w t o = grind arith

  gate-IsOrdered :
      (helper g : ByotMachine) (cfg pre : String)
      → Keeps (IsOrdered m) (
          upgrade_in_flight_boot_id_gate u
            (traced_hosts hc)
            (traced_machines mc)
            (traced_seams s)
            r
            helper
            g
            cfg
            pre)
  unfolding upgrade_in_flight_boot_id_gate
  gate-IsOrdered helper g cfg pre =
      Keeps-handle {A = String} _ _ _
        (Keeps-quiet (s.boot_id_authenticated (machine_endpoints g) cfg))
        (λ e. record {
          run = λ w t o.
              let failed =
                failure-IsOrdered helper g (upgrade_threshold r) "UpgradeFailed" true w t o in
              let hidden = fallback-IsOrdered helper g cfg w t o in ground arith;
        })
        (λ live. record {
          run = λ w t o.
              let done = by_boot_id-IsOrdered helper g cfg w t o in
              let again = again-IsOrdered helper g w t o in ground arith;
        })

  await-IsOrdered :
      (name : String) (g : ByotMachine) (w : W) (t : List Event)
      → IsOrdered m t
      → IsOrdered m (runs (await_cluster_talos_config (traced_machines mc) r name g) w t)
  unfolding await_cluster_talos_config
  await-IsOrdered name g w t o = grind arith

  poll-IsOrdered :
      (helper g : ByotMachine) (a : Awaited String)
      → Keeps
          (IsOrdered m)
          (poll u (traced_hosts hc) (traced_machines mc) (traced_seams s) r helper g a)
  poll-IsOrdered helper g (wait res) = Keeps-pure _
  poll-IsOrdered helper g (have cfg) = record {
    run = λ w t o.
        let gated = (gate-IsOrdered helper g cfg g.status.upgrade_pre_reboot_boot_id).run w t o in
        let hidden = fallback-IsOrdered helper g cfg w t o in ground arith;
  }

  pub in_flight-IsOrdered :
      (helper g : ByotMachine) (machine : Machine)
      → Keeps (IsOrdered m) (
          upgrade_in_flight u
            (traced_hosts hc)
            (traced_machines mc)
            (traced_seams s)
            r
            helper
            g
            machine)
  unfolding upgrade_in_flight
  in_flight-IsOrdered helper g machine =
      Keeps-bind {A = Awaited String} _ _ (record { run = await-IsOrdered machine.cluster_name g })
        (poll-IsOrdered helper g)

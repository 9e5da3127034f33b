-- ===== src/MachineController/Upgrade/Follows.antt =====
-- The upgrade state machine, from its entry on, follows the diagram of the upgrade states
-- (ensureTalosVersion of pkg/controller/byotmachine_controller.go).
use cluster_api_provider_bri.Prelude.{
  String, true, false, not, ◌&&◌, some, [], ◌∷◌, ◌≡◌, ◌∙◌, refl, sym, arith,
}
use cluster_api_provider_bri.Prelude.Int.{eq_ℤ}
use cluster_api_provider_bri.Api.Meta.{Util}
use cluster_api_provider_bri.Api.Machine.{
  ByotMachine, UpgradeState, no_upgrade, in_flight, failed, unknown_upgrade,
}
use cluster_api_provider_bri.Api.Cluster.{Machine}
use cluster_api_provider_bri.Client.{HostClient, MachineClient}
use cluster_api_provider_bri.Endpoints.{machine_endpoints}
use cluster_api_provider_bri.MachineController.Options.{MachineReconciler, version_probe_threshold}
use cluster_api_provider_bri.MachineController.Seams.{MachineSeams, Awaited, wait, have}
use cluster_api_provider_bri.MachineController.Trace.{
  patched_machine, upgraded, traced_machines, traced_hosts, traced_seams, trace,
}
use cluster_api_provider_bri.MachineController.Trace.Keeps.{Keeps-quiet, Keeps-event}
use cluster_api_provider_bri.MachineController.Trace.Leads.{Leads, Leads-handle, Leads-bind}
use cluster_api_provider_bri.MachineController.Upgrade.{
  issue_upgrade, stash_boot_id, probe_and_issue, upgrade_probe_and_issue, mark_in_flight,
  mark_invalid_image_ref, mark_invalid, retrigger_stale_upgrade_failure, clear_failure,
  is_stale_failure, is_failed,
}
use cluster_api_provider_bri.MachineController.Upgrade.Poll.{ensure_talos_version, upgrade_step}
use cluster_api_provider_bri.MachineController.Upgrade.Prepared.{runs}
use cluster_api_provider_bri.MachineController.Upgrade.Diagram.{
  IsPath, FollowsDiagram, Follows, last_sent, stays, finalize-IsPath, failure-IsPath,
  complete-IsPath,
}
use cluster_api_provider_bri.MachineController.Upgrade.Path.{EndsIn, await-EndsIn, in_flight-IsPath}

module _ {W : Type 0} (u : Util) (hc : HostClient W) (mc : MachineClient W) (s : MachineSeams W)
    (r : MachineReconciler) (m : ByotMachine) where
  issue-IsPath :
      (helper g : ByotMachine) (cfg v : String)
      → g.status.upgrade_state ≡ in_flight
      → Leads
          (EndsIn m g)
          (IsPath m)
          (issue_upgrade u (traced_machines mc) (traced_seams s) r helper g cfg v)
  unfolding issue_upgrade stash_boot_id
  issue-IsPath helper g cfg v flying =
      Leads-handle {A = String} _ _ _
        (Keeps-event (upgraded v) (s.upgrade_machine (machine_endpoints g) cfg v) (λ t p. p))
        (λ e. record {
          run = λ w t p. finalize-IsPath u hc mc s r m g "UpgradeFailed" w t (cc) p.1 p.0;
        })
        (λ id. record {
          run = λ w t p.
              let h = last_sent m t in
              let sent : FollowsDiagram h (stash_boot_id id g) =
                rw p.1.0
                  (stays g.status.upgrade_state h (stash_boot_id id g) (rw flying refl) p.1.1) in
              ground arith;
        })

  probe-IsPath :
      (helper g : ByotMachine) (v : String) (a : Awaited String)
      → g.status.upgrade_state ≡ no_upgrade
      → Leads
          (EndsIn m g)
          (IsPath m)
          (probe_and_issue u (traced_machines mc) (traced_seams s) r helper g v a)
  unfolding mark_in_flight
  probe-IsPath helper g v (wait res) idle = record { run = λ w t p. p.0 }
  probe-IsPath helper g v (have cfg) idle =
      Leads-handle {A = String} _ _ _
        (Keeps-quiet (s.version_probe_authenticated (machine_endpoints g) cfg))
        (λ e. record {
          run = λ w t p.
              failure-IsPath u hc mc s r m helper g (version_probe_threshold r) "VersionProbeFailed"
                false w t (rw idle refl) p.1 p.0;
        })
        (λ tag. record {
          run = λ w t p.
              let h = last_sent m t in
              let g' = mark_in_flight u tag g in
              let sent : FollowsDiagram h g' = rw (p.1.0 ∙ idle) (sym p.1.1, refl) in
              let w1 = (mc.patch_machine helper g' w).1 in
              let issued =
                (issue-IsPath helper g' cfg v refl).run w1 (patched_machine g' ∷ t)
                  ((sent, p.0), (refl, refl)) in
              ground arith;
        })

  invalid-IsPath :
      (helper g : ByotMachine)
      → g.status.upgrade_state ≡ no_upgrade
      → Leads (EndsIn m g) (IsPath m) (mark_invalid_image_ref u (traced_machines mc) helper g)
  unfolding mark_invalid_image_ref mark_invalid
  invalid-IsPath helper g idle = record {
    run = λ w t p.
        let h = last_sent m t in
        let sent : FollowsDiagram h (mark_invalid u g) =
          rw p.1.0 (stays g.status.upgrade_state h (mark_invalid u g) (rw idle refl) p.1.1) in
        ground arith;
  }

  step-IsPath :
      (st : UpgradeState) (helper g : ByotMachine) (machine : Machine) (v : String)
      → g.status.upgrade_state ≡ st
      → g.spec.desired_talos_version ≡ some v
      → Leads (EndsIn m g) (IsPath m) (
          upgrade_step u
            (traced_hosts hc)
            (traced_machines mc)
            (traced_seams s)
            r
            st
            helper
            g
            machine
            v)
  unfolding upgrade_step upgrade_probe_and_issue
  step-IsPath no_upgrade helper g machine v idle want = record {
    run = λ w t p.
        let invalid = (invalid-IsPath helper g idle).run w t p in
        let done = complete-IsPath u hc mc s r m helper g v w t (rw idle refl) want p.1 p.0 in
        let issued : IsPath m (
            runs
              (upgrade_probe_and_issue u (traced_machines mc) (traced_seams s) r helper g machine v)
              w t) =
          (Leads-bind {A = Awaited String} _ _ (await-EndsIn u hc mc s r m machine.cluster_name g)
              (λ t' q. q.0) (λ a. probe-IsPath helper g v a idle)).run
            w t p in
        ground arith;
  }
  step-IsPath in_flight helper g machine v flying want =
      in_flight-IsPath u hc mc s r m helper g machine v (rw flying refl) want
  step-IsPath failed helper g machine v e want = record { run = λ w t p. p.0 }
  step-IsPath (unknown_upgrade x) helper g machine v e want = record { run = λ w t p. p.0 }

cleared_by :
    (st : UpgradeState) (m : ByotMachine)
    → (is_failed st && not (eq_ℤ m.meta.generation m.status.upgrade_attempt_generation)) ≡ true
    → Follows st no_upgrade m (clear_failure m)
unfolding clear_failure
cleared_by no_upgrade m e = absurd (cc)
cleared_by in_flight m e = absurd (cc)
cleared_by failed m e = (refl, ground arith)
cleared_by (unknown_upgrade x) m e = absurd (cc)

-- Whatever the API servers and the machine answer, each patch of a machine in ensureTalosVersion
-- follows the diagram of the upgrade states from the patch before it, and the host is reset only
-- once Failed was sent. No upgrade begins from Failed, a failure of the generation at hand stays, and
-- Ready is only taken from a machine whose upgrade failed.
pub ensure_talos_version-IsPath :
    {W : Type 0} (u : Util) (hc : HostClient W) (mc : MachineClient W) (s : MachineSeams W)
    (r : MachineReconciler) (helper m : ByotMachine) (machine : Machine) (w : W)
    → IsPath m (
        trace (
          ensure_talos_version u
            (traced_hosts hc)
            (traced_machines mc)
            (traced_seams s)
            r
            helper
            m
            machine
            (w, [])))
unfolding ensure_talos_version retrigger_stale_upgrade_failure clear_failure is_stale_failure
ensure_talos_version-IsPath u hc mc s r helper m machine w =
    let m' = clear_failure m in
    let w' = (mc.patch_machine helper m' w).1 in
    let sent = cleared_by m.status.upgrade_state m in
    let kept = λ (v : String) (want : m.spec.desired_talos_version ≡ some v).
      (step-IsPath u hc mc s r m m.status.upgrade_state helper m machine v refl want).run w []
        (tt, (refl, refl)) in
    let cleared =
      λ (v : String) (want : m.spec.desired_talos_version ≡ some v) (q : FollowsDiagram m m').
        (step-IsPath u hc mc s r m m'.status.upgrade_state helper m' machine v refl want).run w'
          (patched_machine m' ∷ []) ((q, tt), (refl, refl)) in
    grind (arith, kept, cleared)

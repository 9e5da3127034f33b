-- ===== src/MachineController/Upgrade/Diagram.antt =====
-- The diagram of the upgrade states, and the steps of the upgrade state machine that follow it
-- (pkg/controller/byotmachine_controller.go): a failure, the end of an upgrade and its polls.
use cluster_api_provider_bri.Prelude.{
  String, Bool, true, false, some, List, [], ◌∷◌, ◌≡◌, refl, sym, arith,
}
use cluster_api_provider_bri.Prelude.Int.{ℤ, eq_ℤ}
use cluster_api_provider_bri.Api.Meta.{Util}
use cluster_api_provider_bri.Api.Machine.{
  ByotMachine, UpgradeState, no_upgrade, in_flight, failed, unknown_upgrade,
}
use cluster_api_provider_bri.Client.{HostClient, MachineClient}
use cluster_api_provider_bri.MachineController.Options.{MachineReconciler}
use cluster_api_provider_bri.MachineController.Seams.{MachineSeams}
use cluster_api_provider_bri.MachineController.Trace.{
  Event, patched_machine, reset_host, traced_machines, traced_hosts, traced_seams,
}
use cluster_api_provider_bri.MachineController.Upgrade.{
  finalize_upgrade_failure, clear_after_reset, clear_adoption, mark_failed, mark_upgraded,
  record_upgrade_probe_failure, give_up, count_probe_failure, mark_upgrade_complete,
  sync_host_talos_version, mirror_version,
}
use cluster_api_provider_bri.MachineController.Upgrade.Prepared.{runs}

-- A patch of the machine `h` to `g`, by the two states. Ready is only taken from a failed upgrade. An
-- upgrade begins and fails with the generation that the machine has; one in flight ends with the
-- desired version as the applied one; a failure is only cleared for another generation.
abbrev pub Follows : UpgradeState → UpgradeState → ByotMachine → ByotMachine → Type 0
Follows no_upgrade no_upgrade h g = g.status.ready ≡ h.status.ready
Follows no_upgrade in_flight h g =
    (g.status.ready ≡ h.status.ready) × (g.status.upgrade_attempt_generation ≡ g.meta.generation)
Follows no_upgrade failed h g =
    (g.status.ready ≡ h.status.ready) × (g.status.upgrade_attempt_generation ≡ g.meta.generation)
Follows no_upgrade (unknown_upgrade x) h g = ⊥
Follows in_flight no_upgrade h g =
    (g.status.ready ≡ h.status.ready)
    × (g.status.upgrade_attempt_generation ≡ g.meta.generation)
    × (some g.status.upgrade_applied_image_ref ≡ g.spec.desired_talos_version)
Follows in_flight in_flight h g = g.status.ready ≡ h.status.ready
Follows in_flight failed h g =
    (g.status.ready ≡ h.status.ready) × (g.status.upgrade_attempt_generation ≡ g.meta.generation)
Follows in_flight (unknown_upgrade x) h g = ⊥
Follows failed no_upgrade h g =
    (g.status.ready ≡ h.status.ready)
    × (eq_ℤ h.meta.generation h.status.upgrade_attempt_generation ≡ false)
Follows failed in_flight h g = ⊥
Follows failed failed h g = Unit
Follows failed (unknown_upgrade x) h g = ⊥
Follows (unknown_upgrade x) s h g = ⊥

abbrev pub FollowsDiagram : ByotMachine → ByotMachine → Type 0
FollowsDiagram h g = Follows h.status.upgrade_state g.status.upgrade_state h g

-- The machine as the last patch of a trace sent it, `m` before the first one.
abbrev pub last_sent : ByotMachine → List Event → ByotMachine
last_sent m [] = m
last_sent m (patched_machine g ∷ before) = g
last_sent m (x ∷ before) = last_sent m before

-- Each patch of a trace follows the diagram, and the host is reset only once Failed was sent.
abbrev pub IsPath : ByotMachine → List Event → Type 0
IsPath m [] = Unit
IsPath m (patched_machine g ∷ before) = FollowsDiagram (last_sent m before) g × IsPath m before
IsPath m (reset_host ∷ before) =
    ((last_sent m before).status.upgrade_state ≡ failed) × IsPath m before
IsPath m (x ∷ before) = IsPath m before

-- The machine in hand agrees with the last one that was sent.
abbrev pub Agrees : ByotMachine → ByotMachine → Type 0
Agrees h g = (h.status.upgrade_state ≡ g.status.upgrade_state) × (h.status.ready ≡ g.status.ready)

-- No upgrade, or one in flight.
abbrev pub is_live : UpgradeState → Bool
is_live no_upgrade = true
is_live in_flight = true
is_live failed = false
is_live (unknown_upgrade x) = false

fails :
    (s : UpgradeState) (u : Util) (h g : ByotMachine) (reason : String)
    → is_live s ≡ true
    → h.status.ready ≡ g.status.ready
    → Follows s failed h (mark_failed u reason g)
unfolding mark_failed
fails no_upgrade u h g reason e same = (sym same, refl)
fails in_flight u h g reason e same = (sym same, refl)
fails failed u h g reason e same = tt
fails (unknown_upgrade x) u h g reason e same = absurd (cc)

pub stays :
    (s : UpgradeState) (h g : ByotMachine)
    → is_live s ≡ true
    → h.status.ready ≡ g.status.ready
    → Follows s s h g
stays no_upgrade h g e same = sym same
stays in_flight h g e same = sym same
stays failed h g e same = tt
stays (unknown_upgrade x) h g e same = absurd (cc)

ends :
    (s : UpgradeState) (u : Util) (h g : ByotMachine) (v : String)
    → is_live s ≡ true
    → h.status.ready ≡ g.status.ready
    → g.spec.desired_talos_version ≡ some v
    → Follows s no_upgrade h (mark_upgraded u g)
unfolding mark_upgraded
ends no_upgrade u h g v e same want = sym same
ends in_flight u h g v e same want = (sym same, refl, ground arith)
ends failed u h g v e same want = absurd (cc)
ends (unknown_upgrade x) u h g v e same want = absurd (cc)

module _ {W : Type 0} (u : Util) (hc : HostClient W) (mc : MachineClient W) (s : MachineSeams W)
    (r : MachineReconciler) (m : ByotMachine) where
  pub finalize-IsPath :
      (g : ByotMachine) (reason : String) (w : W) (t : List Event)
      → is_live g.status.upgrade_state ≡ true
      → Agrees (last_sent m t) g
      → IsPath m t
      → IsPath m
          (runs (finalize_upgrade_failure u (traced_machines mc) (traced_seams s) r g reason) w t)
  unfolding finalize_upgrade_failure clear_after_reset mark_failed clear_adoption
  finalize-IsPath g reason w t live same p =
      let h = last_sent m t in
      let sent = fails h.status.upgrade_state u h g reason (rw same.0 live) same.1 in grind arith

  pub failure-IsPath :
      (helper g : ByotMachine) (n : ℤ) (reason : String) (resets : Bool) (w : W) (t : List Event)
      → is_live g.status.upgrade_state ≡ true
      → Agrees (last_sent m t) g
      → IsPath m t
      → IsPath m (
          runs
            (record_upgrade_probe_failure u
              (traced_machines mc)
              (traced_seams s)
              r
              helper
              g
              n
              reason
              resets)
            w
            t)
  unfolding record_upgrade_probe_failure give_up count_probe_failure mark_failed
  failure-IsPath helper g n reason resets w t live same p =
      let g' = count_probe_failure g in
      let h = last_sent m t in
      let counted : FollowsDiagram h g' =
        rw same.0 (stays g.status.upgrade_state h g' live same.1) in
      let w1 = (mc.patch_machine helper g' w).1 in
      let gave_up = fails g.status.upgrade_state u g' g' reason live refl in
      let ended =
        finalize-IsPath g' reason w1 (patched_machine g' ∷ t) live (refl, refl) (counted, p) in
      ground arith

  pub complete-IsPath :
      (helper g : ByotMachine) (v : String) (w : W) (t : List Event)
      → is_live g.status.upgrade_state ≡ true
      → g.spec.desired_talos_version ≡ some v
      → Agrees (last_sent m t) g
      → IsPath m t
      → IsPath m
          (runs (mark_upgrade_complete u (traced_hosts hc) (traced_machines mc) helper g) w t)
  unfolding mark_upgrade_complete sync_host_talos_version mirror_version mark_upgraded
  complete-IsPath helper g v w t live want same p =
      let h = last_sent m t in
      let ended = ends h.status.upgrade_state u h g v (rw same.0 live) same.1 want in grind arith

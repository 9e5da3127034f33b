-- ===== src/MachineController/Upgrade.antt =====
-- The post-adoption Talos upgrade of pkg/controller/byotmachine_controller.go: ensureTalosVersion
-- and what it calls. Each step returns ctrl.Result, whether it is handled, and the machine.
mod Marks
pub mod Order
pub mod Prepared
pub mod GivesUp
pub mod Reboot
pub mod Succeeds
pub mod Poll
pub mod Diagram
pub mod Path
pub mod Follows
pub use Marks.{talos_version_ready_condition, with_status, is_failed}
unfoldable pub use Marks.{
  upgrade_already_applied, is_stale_failure, clear_failure, count_probe_failure, mark_failed,
  mark_invalid, mark_in_flight, mark_upgraded, clear_adoption, stash_boot_id, note_version,
}
use cluster_api_provider_bri.Prelude.{
  String, Bool, true, false, not, ◌&&◌, Option, none, some, List, [], ◌∷◌, ◌==◌, ◌!=◌,
  if◌then◌else◌,
}
use cluster_api_provider_bri.Prelude.Int.{ℤ, pos, inc_int32, geb_ℤ, eq_ℤ}
use cluster_api_provider_bri.Go.{CtrlResult, no_requeue, after, Err, is_not_found, wrap}
use cluster_api_provider_bri.Go.Action.{M, handle, pure, raise, wrap_err, ◌>>=◌, ◌>>◌}
use cluster_api_provider_bri.Api.Meta.{
  Util, mark_false, set_true, severity_error, severity_info, severity_warning, Severity,
}
use cluster_api_provider_bri.Api.Host.{ByotHost}
use cluster_api_provider_bri.Api.Machine.{
  ByotMachine, ByotMachineStatus, UpgradeState, no_upgrade, in_flight, failed, unknown_upgrade,
}
use cluster_api_provider_bri.Api.Cluster.{Machine}
use cluster_api_provider_bri.Endpoints.{machine_endpoints}
use cluster_api_provider_bri.Client.{MachineClient, HostClient}
use cluster_api_provider_bri.Claim.{is_blank, value, resolved_key}
use cluster_api_provider_bri.HostController.{with_status as with_host_status}
use cluster_api_provider_bri.MachineController.Options.{
  MachineReconciler, requeue_after_upgrade, requeue_after_reset_issued, version_probe_threshold,
}
use cluster_api_provider_bri.MachineController.Seams.{MachineSeams, Awaited, wait, have, Handled}
use cluster_api_provider_bri.MachineController.Secrets.{await_cluster_talos_config}

module _ {W : Type 0} (mc : MachineClient W) where
  unfoldable pub retrigger_stale_upgrade_failure : ByotMachine → ByotMachine → M W ByotMachine
  retrigger_stale_upgrade_failure helper m =
      if is_stale_failure m
      then (do
        wrap_err "failed to patch ByotMachine on upgrade retrigger"
            (mc.patch_machine helper (clear_failure m))
        pure (clear_failure m))
      else pure m

  -- The end of finalizeUpgradeFailure, after the reset.
  unfoldable pub clear_after_reset : ByotMachine → M W Handled
  clear_after_reset m = do
    clear_helper ← wrap_err "failed to patch ByotMachine after reset" (mc.new_machine_helper m)
    wrap_err "failed to patch ByotMachine after reset"
        (mc.patch_machine clear_helper (clear_adoption m))
    pure (no_requeue, true, clear_adoption m)

module _ {W : Type 0} (u : Util) (mc : MachineClient W) where
  unfoldable pub mark_invalid_image_ref : ByotMachine → ByotMachine → M W Handled
  mark_invalid_image_ref helper m = do
    wrap_err "failed to patch ByotMachine on invalid image ref"
        (mc.patch_machine helper (mark_invalid u m))
    pure (no_requeue, true, mark_invalid u m)

  -- recordUpgradeProbeFailure at the threshold with resetOnFailure false.
  unfoldable pub give_up : ByotMachine → ByotMachine → String → M W Handled
  give_up helper m reason = do
    wrap_err "failed to patch ByotMachine on upgrade failure" (
        mc.patch_machine_owned helper (mark_failed u reason m) (talos_version_ready_condition ∷ []))
    pure (no_requeue, true, mark_failed u reason m)

module _ {W : Type 0} (u : Util) (mc : MachineClient W) (s : MachineSeams W)
    (r : MachineReconciler) where
  unfoldable pub finalize_upgrade_failure : ByotMachine → String → M W Handled
  finalize_upgrade_failure m reason = do
    failed_helper ←
        wrap_err "failed to patch ByotMachine on upgrade failure" (mc.new_machine_helper m)
    wrap_err "failed to patch ByotMachine on upgrade failure" (
        mc.patch_machine_owned failed_helper (mark_failed u reason m)
          (talos_version_ready_condition ∷ []))
    handle (s.reset_adopted_host (mark_failed u reason m))
        (λ e. pure (after (requeue_after_reset_issued r), true, mark_failed u reason m))
        λ _. clear_after_reset mc (mark_failed u reason m)

  unfoldable pub record_upgrade_probe_failure :
      ByotMachine → ByotMachine → ℤ → String → Bool → M W Handled
  record_upgrade_probe_failure helper m threshold reason reset_on_failure = do
    let m' = count_probe_failure m
    wrap_err "failed to patch ByotMachine on upgrade probe retry" (mc.patch_machine helper m')
    if geb_ℤ m'.status.upgrade_probe_failures threshold
        then (if reset_on_failure
            then finalize_upgrade_failure m' reason
            else give_up u mc helper m' reason)
        else pure (after (requeue_after_upgrade r), true, m')

  -- upgradeProbeAndIssue once the machine is stored as in flight.
  unfoldable pub issue_upgrade : ByotMachine → ByotMachine → String → String → M W Handled
  issue_upgrade helper m cfg desired =
      handle (s.upgrade_machine (machine_endpoints m) cfg desired)
        (λ e. finalize_upgrade_failure m "UpgradeFailed")
        λ boot_id. do
          wrap_err "failed to patch ByotMachine after upgrade"
              (mc.patch_machine helper (stash_boot_id boot_id m))
          pure (after (requeue_after_upgrade r), true, stash_boot_id boot_id m)

  abbrev pub probe_and_issue : ByotMachine → ByotMachine → String → Awaited String → M W Handled
  probe_and_issue helper m desired (wait res) = pure (res, true, m)
  probe_and_issue helper m desired (have cfg) =
      handle (s.version_probe_authenticated (machine_endpoints m) cfg)
        (λ e.
          record_upgrade_probe_failure helper m (version_probe_threshold r) "VersionProbeFailed"
            false)
        λ tag. do
          let m' = mark_in_flight u tag m
          wrap_err "failed to patch ByotMachine before upgrade" (mc.patch_machine helper m')
          issue_upgrade helper m' cfg desired

  unfoldable pub upgrade_probe_and_issue :
      ByotMachine → ByotMachine → Machine → String → M W Handled
  upgrade_probe_and_issue helper m machine desired = do
    auth ← await_cluster_talos_config mc r machine.cluster_name m
    probe_and_issue helper m desired auth

module _ {W : Type 0} (hc : HostClient W) where
  -- syncHostTalosVersion on the host that it fetched.
  unfoldable pub mirror_version : ByotMachine → ByotHost → M W (Unit {0})
  mirror_version m h =
      if h.status.talos_version == m.status.current_talos_version then pure tt else (do
        wrap_err "failed to mirror Talos version onto ByotHost" (
            hc.update_host_status (
              with_host_status h
                (record h.status { talos_version = m.status.current_talos_version })))
        pure tt)

  unfoldable pub sync_host_talos_version : ByotMachine → M W (Unit {0})
  sync_host_talos_version m =
      if m.status.resolved_host == ""
      then pure tt
      else if m.status.current_talos_version == ""
      then pure tt
      else handle (hc.get_host (resolved_key m))
          (λ e.
            if is_not_found e
            then pure tt
            else raise (wrap "failed to get ByotHost for version mirror" e))
          (mirror_version m)

module _ {W : Type 0} (u : Util) (hc : HostClient W) (mc : MachineClient W) where
  unfoldable pub mark_upgrade_complete : ByotMachine → ByotMachine → M W Handled
  mark_upgrade_complete helper m = do
    wrap_err "failed to patch ByotMachine on upgrade complete"
        (mc.patch_machine helper (mark_upgraded u m))
    sync_host_talos_version hc (mark_upgraded u m)
    pure (no_requeue, false, mark_upgraded u m)

-- ===== src/MachineController/Upgrade/Poll.antt =====
-- The poll of an upgrade in flight and the entry of the upgrade state machine: upgradeInFlight,
-- upgradeInFlightBootIDGate, upgradeInFlightVersionFallback and ensureTalosVersion of
-- pkg/controller/byotmachine_controller.go.
use cluster_api_provider_bri.Prelude.{
  String, true, false, not, ◌&&◌, ◌||◌, ◌==◌, ◌!=◌, if◌then◌else◌,
}
use cluster_api_provider_bri.Prelude.Int.{pos}
use cluster_api_provider_bri.Go.{no_requeue, after, is_boot_id_unauthorized}
use cluster_api_provider_bri.Go.Action.{M, handle, pure, wrap_err, ◌>>=◌, ◌>>◌}
use cluster_api_provider_bri.Api.Meta.{Util}
use cluster_api_provider_bri.Api.Machine.{
  ByotMachine, UpgradeState, no_upgrade, in_flight, failed, unknown_upgrade,
}
use cluster_api_provider_bri.Api.Cluster.{Machine}
use cluster_api_provider_bri.Endpoints.{machine_endpoints}
use cluster_api_provider_bri.Client.{MachineClient, HostClient}
use cluster_api_provider_bri.Claim.{is_blank, value}
use cluster_api_provider_bri.MachineController.Options.{
  MachineReconciler, requeue_after_upgrade, upgrade_threshold,
}
use cluster_api_provider_bri.MachineController.Seams.{MachineSeams, Awaited, wait, have, Handled}
use cluster_api_provider_bri.MachineController.Secrets.{await_cluster_talos_config}
use cluster_api_provider_bri.MachineController.Upgrade.{
  with_status, note_version, upgrade_already_applied, retrigger_stale_upgrade_failure,
  mark_invalid_image_ref, record_upgrade_probe_failure, upgrade_probe_and_issue,
  mark_upgrade_complete,
}

-- The version that a poll reads, with the failures reset.
unfoldable pub note_poll : String → ByotMachine → ByotMachine
note_poll tag m =
    with_status m (record m.status { current_talos_version = tag; upgrade_probe_failures = pos 0 })

module _ {W : Type 0} (u : Util) (hc : HostClient W) (mc : MachineClient W) (s : MachineSeams W)
    (r : MachineReconciler) where
  -- The upgrade is not seen to be complete yet.
  unfoldable pub poll_again : ByotMachine → ByotMachine → M W Handled
  poll_again helper m = do
    wrap_err "failed to patch ByotMachine on upgrade poll" (mc.patch_machine helper m)
    pure (after (requeue_after_upgrade r), true, m)

  unfoldable pub upgrade_in_flight_version_fallback :
      ByotMachine → ByotMachine → String → M W Handled
  upgrade_in_flight_version_fallback helper m cfg =
      handle (s.version_probe_authenticated (machine_endpoints m) cfg)
        (λ e.
          record_upgrade_probe_failure u mc s r helper m (upgrade_threshold r) "UpgradeFailed" true)
        λ tag.
          if tag == "" || tag == m.status.current_talos_version
          then poll_again helper (note_poll tag m)
          else mark_upgrade_complete u hc mc helper (note_poll tag m)

  -- The boot-id changed: the version is refreshed if the probe answers.
  unfoldable pub complete_by_boot_id : ByotMachine → ByotMachine → String → M W Handled
  complete_by_boot_id helper m cfg =
      handle (s.version_probe_authenticated (machine_endpoints m) cfg)
        (λ e. mark_upgrade_complete u hc mc helper m)
        λ tag.
          if tag != ""
          then mark_upgrade_complete u hc mc helper (note_version tag m)
          else mark_upgrade_complete u hc mc helper m

  unfoldable pub upgrade_in_flight_boot_id_gate :
      ByotMachine → ByotMachine → String → String → M W Handled
  upgrade_in_flight_boot_id_gate helper m cfg pre =
      handle (s.boot_id_authenticated (machine_endpoints m) cfg)
        (λ e.
          if is_boot_id_unauthorized e
          then upgrade_in_flight_version_fallback helper m cfg
          else record_upgrade_probe_failure u mc s r helper m (upgrade_threshold r) "UpgradeFailed"
              true)
        λ live.
          if live != "" && live != pre
          then complete_by_boot_id helper m cfg
          else poll_again helper m

  abbrev pub poll : ByotMachine → ByotMachine → Awaited String → M W Handled
  poll helper m (wait res) = pure (res, true, m)
  poll helper m (have cfg) =
      if m.status.upgrade_pre_reboot_boot_id != ""
      then upgrade_in_flight_boot_id_gate helper m cfg m.status.upgrade_pre_reboot_boot_id
      else upgrade_in_flight_version_fallback helper m cfg

  unfoldable pub upgrade_in_flight : ByotMachine → ByotMachine → Machine → M W Handled
  upgrade_in_flight helper m machine = do
    auth ← await_cluster_talos_config mc r machine.cluster_name m
    poll helper m auth

  -- The switch of ensureTalosVersion.
  unfoldable pub upgrade_step :
      UpgradeState → ByotMachine → ByotMachine → Machine → String → M W Handled
  upgrade_step no_upgrade helper m machine desired =
      if desired == ""
      then mark_invalid_image_ref u mc helper m
      else if upgrade_already_applied m desired
      then mark_upgrade_complete u hc mc helper m
      else upgrade_probe_and_issue u mc s r helper m machine desired
  upgrade_step in_flight helper m machine desired = upgrade_in_flight helper m machine
  upgrade_step failed helper m machine desired = pure (no_requeue, true, m)
  upgrade_step (unknown_upgrade x) helper m machine desired = pure (no_requeue, true, m)

  unfoldable pub ensure_talos_version : ByotMachine → ByotMachine → Machine → M W Handled
  ensure_talos_version helper m machine =
      if is_blank m.spec.desired_talos_version
      then pure (no_requeue, false, m)
      else if not m.status.ready
      then pure (no_requeue, false, m)
      else (do
        m' ← retrigger_stale_upgrade_failure mc helper m
        upgrade_step m'.status.upgrade_state helper m' machine (value m.spec.desired_talos_version))

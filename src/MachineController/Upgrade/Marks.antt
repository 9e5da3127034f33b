-- ===== src/MachineController/Upgrade/Marks.antt =====
-- What the functions of the Talos upgrade in pkg/controller/byotmachine_controller.go read of a
-- machine and assign to it between their calls.
use cluster_api_provider_bri.Prelude.{
  String, Bool, true, false, not, ◌&&◌, Option, none, some, ◌==◌,
}
use cluster_api_provider_bri.Prelude.Int.{pos, inc_int32, eq_ℤ}
use cluster_api_provider_bri.Api.Meta.{
  Util, mark_false, set_true, severity_error, severity_info, severity_warning,
}
use cluster_api_provider_bri.Api.Machine.{
  ByotMachine, ByotMachineStatus, UpgradeState, no_upgrade, in_flight, failed,
}

abbrev pub talos_version_ready_condition : String
talos_version_ready_condition = "TalosVersionReady"

abbrev pub with_status : ByotMachine → ByotMachineStatus → ByotMachine
with_status m s = record m { status = s }

abbrev pub is_failed : UpgradeState → Bool
is_failed failed = true
is_failed _ = false

-- The desired installer was applied for the generation that the machine has.
unfoldable pub upgrade_already_applied : ByotMachine → String → Bool
upgrade_already_applied m desired =
    m.status.upgrade_applied_image_ref == desired
    && eq_ℤ m.status.upgrade_attempt_generation m.meta.generation

-- A failure whose attempt belongs to an older generation.
unfoldable pub is_stale_failure : ByotMachine → Bool
is_stale_failure m =
    is_failed m.status.upgrade_state
    && not (eq_ℤ m.meta.generation m.status.upgrade_attempt_generation)

unfoldable pub clear_failure : ByotMachine → ByotMachine
clear_failure m =
    with_status m (record m.status { upgrade_state = no_upgrade; upgrade_probe_failures = pos 0 })

unfoldable pub count_probe_failure : ByotMachine → ByotMachine
count_probe_failure m =
    with_status m
      (record m.status { upgrade_probe_failures = inc_int32 m.status.upgrade_probe_failures })

module _ (u : Util) where
  -- The assignments of a failed upgrade: the state, the generation, the condition.
  unfoldable pub mark_failed : String → ByotMachine → ByotMachine
  mark_failed reason m = with_status m (record m.status {
    upgrade_state = failed;
    upgrade_attempt_generation = m.meta.generation;
    conditions =
        mark_false u m.status.conditions talos_version_ready_condition reason severity_warning;
  })

  unfoldable pub mark_invalid : ByotMachine → ByotMachine
  mark_invalid m = with_status m (record m.status {
    upgrade_attempt_generation = m.meta.generation;
    conditions =
        mark_false u m.status.conditions talos_version_ready_condition "InvalidImageRef"
          severity_error;
  })

  -- What upgradeProbeAndIssue stores before it issues the upgrade; `tag` is the live version.
  unfoldable pub mark_in_flight : String → ByotMachine → ByotMachine
  mark_in_flight tag m = with_status m (record m.status {
    current_talos_version = tag;
    upgrade_probe_failures = pos 0;
    upgrade_state = in_flight;
    upgrade_attempt_generation = m.meta.generation;
    upgrade_pre_reboot_boot_id = "";
    conditions =
        mark_false u m.status.conditions talos_version_ready_condition "Upgrading" severity_info;
  })

  abbrev or_old : Option String → String → String
  or_old none old = old
  or_old (some new) old = new

  unfoldable pub mark_upgraded : ByotMachine → ByotMachine
  mark_upgraded m = with_status m (record m.status {
    upgrade_state = no_upgrade;
    upgrade_pre_reboot_boot_id = "";
    upgrade_applied_image_ref =
        or_old m.spec.desired_talos_version m.status.upgrade_applied_image_ref;
    upgrade_attempt_generation = m.meta.generation;
    conditions = set_true u m.status.conditions talos_version_ready_condition "Upgraded";
  })

-- The assignments after the reset of a failed host: the next reconcile applies the config again.
unfoldable pub clear_adoption : ByotMachine → ByotMachine
clear_adoption m = with_status m (record m.status { ready = false; last_applied_config_sha = "" })

unfoldable pub stash_boot_id : String → ByotMachine → ByotMachine
stash_boot_id id m = with_status m (record m.status { upgrade_pre_reboot_boot_id = id })

unfoldable pub note_version : String → ByotMachine → ByotMachine
note_version tag m = with_status m (record m.status { current_talos_version = tag })

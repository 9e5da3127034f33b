-- ===== src/MachineController/Options.antt =====
-- The tunables of ByotMachineReconciler: defaults, SetOptions and the getters. Durations are
-- nanoseconds.
use cluster_api_provider_bri.Prelude.Int.{ℤ, pos}
use cluster_api_provider_bri.HostController.{or_keep}

-- The tunable fields of ByotMachineReconciler.
pub record MachineReconciler : Type 0 where
  pub requeue_after_bootstrap : ℤ
  pub requeue_after_reset_issued : ℤ
  pub requeue_after_node_link : ℤ
  pub requeue_after_upgrade : ℤ
  pub version_probe_threshold : ℤ
  pub upgrade_threshold : ℤ

-- ByotMachineOptions has the same fields.
abbrev pub ByotMachineOptions : Type 0
ByotMachineOptions = MachineReconciler

unfoldable pub set_options : ByotMachineOptions → MachineReconciler → MachineReconciler
set_options o r = record {
  requeue_after_bootstrap = or_keep o.requeue_after_bootstrap r.requeue_after_bootstrap;
  requeue_after_reset_issued = or_keep o.requeue_after_reset_issued r.requeue_after_reset_issued;
  requeue_after_node_link = or_keep o.requeue_after_node_link r.requeue_after_node_link;
  requeue_after_upgrade = or_keep o.requeue_after_upgrade r.requeue_after_upgrade;
  version_probe_threshold = or_keep o.version_probe_threshold r.version_probe_threshold;
  upgrade_threshold = or_keep o.upgrade_threshold r.upgrade_threshold;
}

unfoldable pub requeue_after_bootstrap : MachineReconciler → ℤ
requeue_after_bootstrap r = or_keep r.requeue_after_bootstrap (pos 10000000000)

unfoldable pub requeue_after_reset_issued : MachineReconciler → ℤ
requeue_after_reset_issued r = or_keep r.requeue_after_reset_issued (pos 10000000000)

unfoldable pub requeue_after_node_link : MachineReconciler → ℤ
requeue_after_node_link r = or_keep r.requeue_after_node_link (pos 30000000000)

unfoldable pub requeue_after_upgrade : MachineReconciler → ℤ
requeue_after_upgrade r = or_keep r.requeue_after_upgrade (pos 30000000000)

unfoldable pub version_probe_threshold : MachineReconciler → ℤ
version_probe_threshold r = or_keep r.version_probe_threshold (pos 5)

unfoldable pub upgrade_threshold : MachineReconciler → ℤ
upgrade_threshold r = or_keep r.upgrade_threshold (pos 10)

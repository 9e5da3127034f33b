-- ===== src/MachineController/Preflight.antt =====
-- The join preflight of pkg/controller/byotmachine_controller.go: preflightJoin,
-- preflightForeignMachine, recordPreflightFailure, resolveApplyAuth, awaitControlPlaneReady and
-- clusterControlPlaneReady.
pub mod Evidence
use cluster_api_provider_bri.Prelude.{String, Bool, true, false, Option, none, some, if◌then◌else◌}
use cluster_api_provider_bri.Prelude.Dict.{lookup}
use cluster_api_provider_bri.Go.{
  CtrlResult, no_requeue, after, Err, is_not_found, is_talos_config_not_ready, join_no_credentials,
  join_bundle_mismatch, wrap,
}
use cluster_api_provider_bri.Go.Action.{M, handle, pure, raise, wrap_err, ask, ◌>>=◌, ◌>>◌}
use cluster_api_provider_bri.Api.Meta.{
  Util, ObjectKey, mark_false, set_true, severity_error, severity_info,
}
use cluster_api_provider_bri.Api.Machine.{ByotMachine}
use cluster_api_provider_bri.Api.Cluster.{
  Machine, control_plane_label, control_plane_ready_condition,
}
use cluster_api_provider_bri.Endpoints.{machine_endpoints}
use cluster_api_provider_bri.Client.{MachineClient}
use cluster_api_provider_bri.MachineController.Options.{MachineReconciler, requeue_after_bootstrap}
use cluster_api_provider_bri.MachineController.Seams.{MachineSeams, Awaited, wait, have, Handled}
use cluster_api_provider_bri.MachineController.Secrets.{
  cluster_talos_config, referenced_talos_config, await_cluster_talos_config,
}

abbrev pub machine_adopted_condition : String
machine_adopted_condition = "MachineAdopted"

abbrev pub join_preflight_condition : String
join_preflight_condition = "JoinPreflight"

-- The authentication for an apply: the talosconfig, nil for the maintenance client; whether the
-- machine carries the cluster's bundle; the machine.
abbrev pub ApplyAuth : Type 0
ApplyAuth = Option String × Bool × ByotMachine

module _ (u : Util) where
  unfoldable pub mark_preflight_ok : String → ByotMachine → ByotMachine
  mark_preflight_ok reason m = record m {
    status = record m.status {
      conditions = set_true u m.status.conditions join_preflight_condition reason;
    };
  }

  unfoldable pub mark_preflight_failed : String → ByotMachine → ByotMachine
  mark_preflight_failed reason m = record m {
    status = record m.status {
      conditions = mark_false u m.status.conditions join_preflight_condition reason severity_error;
    };
  }

  unfoldable pub mark_waiting_for_control_plane : ByotMachine → ByotMachine
  mark_waiting_for_control_plane m = record m {
    status = record m.status {
      conditions =
          mark_false u m.status.conditions machine_adopted_condition "WaitingForControlPlane"
            severity_info;
    };
  }

module _ {W : Type 0} (u : Util) (mc : MachineClient W) (s : MachineSeams W)
    (r : MachineReconciler) where
  -- Stores the failure and returns it as the error.
  unfoldable pub record_preflight_failure :
      ByotMachine → ByotMachine → String → Err → M W (Awaited ApplyAuth)
  unfolding mark_preflight_failed
  record_preflight_failure helper m reason e = do
    wrap_err "failed to patch ByotMachine after join preflight failure"
        (mc.patch_machine helper (mark_preflight_failed u reason m))
    raise e

  -- preflightForeignMachine for a machine with a referenced talosconfig.
  unfoldable pub preflight_referenced : ByotMachine → ByotMachine → String → M W (Awaited ApplyAuth)
  unfolding referenced_talos_config record_preflight_failure requeue_after_bootstrap
  preflight_referenced helper m name =
      handle (referenced_talos_config mc name m.meta.namespace)
        (λ e.
          if is_talos_config_not_ready e
          then pure (wait (after (requeue_after_bootstrap r)))
          else raise e)
        λ cfg. do
          answers ← ask (s.probe_authenticated (machine_endpoints m) cfg)
          if answers
              then record_preflight_failure helper m "BundleMismatch" join_bundle_mismatch
              else pure (have (some cfg, false, m))

  abbrev preflight_foreign_by : ByotMachine → ByotMachine → Option String → M W (Awaited ApplyAuth)
  preflight_foreign_by helper m none =
      record_preflight_failure helper m "NoCredentials" join_no_credentials
  preflight_foreign_by helper m (some name) = preflight_referenced helper m name

  unfoldable pub preflight_foreign_machine : ByotMachine → ByotMachine → M W (Awaited ApplyAuth)
  unfolding record_preflight_failure preflight_referenced
  preflight_foreign_machine helper m = preflight_foreign_by helper m m.spec.talos_config_secret_ref

  -- preflightJoin for a machine that is not in maintenance mode.
  unfoldable pub preflight_configured :
      ByotMachine → Machine → ByotMachine → M W (Awaited ApplyAuth)
  unfolding cluster_talos_config preflight_foreign_machine mark_preflight_ok requeue_after_bootstrap
  preflight_configured helper machine m =
      handle (cluster_talos_config mc machine.cluster_name m.meta.namespace)
        (λ e.
          if is_talos_config_not_ready e
          then pure (wait (after (requeue_after_bootstrap r)))
          else raise e)
        λ cfg. do
          answers ← ask (s.probe_authenticated (machine_endpoints m) cfg)
          if answers
              then pure (have (some cfg, true, mark_preflight_ok u "BundleMatch" m))
              else preflight_foreign_machine helper m

  unfoldable pub preflight_join : ByotMachine → Machine → ByotMachine → M W (Awaited ApplyAuth)
  unfolding preflight_configured mark_preflight_ok
  preflight_join helper machine m = do
    in_maintenance ← ask (s.probe_maintenance (machine_endpoints m))
    if in_maintenance
        then pure (have (none, false, mark_preflight_ok u "MaintenanceMode" m))
        else preflight_configured helper machine m

  abbrev reapply_auth : ByotMachine → Awaited String → Awaited ApplyAuth
  reapply_auth m (wait res) = wait res
  reapply_auth m (have cfg) = have (some cfg, true, m)

  unfoldable pub resolve_apply_auth : ByotMachine → Machine → ByotMachine → M W (Awaited ApplyAuth)
  unfolding await_cluster_talos_config preflight_join
  resolve_apply_auth helper machine m =
      if m.status.ready
      then (do
        auth ← await_cluster_talos_config mc r machine.cluster_name m
        pure (reapply_auth m auth))
      else preflight_join helper machine m

  unfoldable pub cluster_control_plane_ready : String → String → M W Bool
  cluster_control_plane_ready name namespace =
      handle (mc.get_cluster (record { namespace = namespace; name = name }))
        (λ e. if is_not_found e then pure false else raise (wrap "failed to get Cluster" e))
        λ cluster. pure (u.is_true cluster.conditions control_plane_ready_condition)

  abbrev has_label : Option String → Bool
  has_label none = false
  has_label (some v) = true

  unfoldable pub await_control_plane_ready : ByotMachine → Machine → ByotMachine → M W Handled
  unfolding cluster_control_plane_ready mark_waiting_for_control_plane requeue_after_bootstrap
      lookup
  await_control_plane_ready helper machine m =
      if has_label (lookup control_plane_label machine.meta.labels)
      then pure (no_requeue, false, m)
      else (do
        ready ← cluster_control_plane_ready machine.cluster_name m.meta.namespace
        if ready then pure (no_requeue, false, m) else (do
          wrap_err "failed to patch ByotMachine"
              (mc.patch_machine helper (mark_waiting_for_control_plane u m))
          pure (after (requeue_after_bootstrap r), true, mark_waiting_for_control_plane u m)))

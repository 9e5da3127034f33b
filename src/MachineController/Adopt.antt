-- ===== src/MachineController/Adopt.antt =====
-- Adoption in pkg/controller/byotmachine_controller.go: adopt, applyAndMarkAdopted,
-- resolveInstallDisk, markAdopted, configUnchanged, nudgeKubeletAfterReadopt, recordApplyFailure
-- and Reconcile.
pub mod Failure
pub mod Spares
pub mod Edited
use Prim.Native.String.{◌++◌}
use cluster_api_provider_bri.Prelude.{
  String, Bool, true, false, not, ◌&&◌, ◌||◌, Option, none, some, List, [], ◌∷◌, ◌==◌, ◌!=◌,
  if◌then◌else◌,
}
use cluster_api_provider_bri.Go.{CtrlResult, no_requeue, Err, is_not_found, wrap}
use cluster_api_provider_bri.Go.Action.{
  M, Result, ok, err, handle, pure, raise, lift, wrap_err, ◌>>=◌, ◌>>◌,
}
use cluster_api_provider_bri.Api.Meta.{
  Util, ObjectKey, is_deleted, mark_true, mark_false, severity_warning,
}
use cluster_api_provider_bri.Api.Machine.{
  ByotMachine, provider_id_prefix, external_ip, internal_ip, AddressType,
}
use cluster_api_provider_bri.Api.Cluster.{Machine}
use cluster_api_provider_bri.Endpoints.{Endpoints, machine_endpoints}
use cluster_api_provider_bri.Client.{HostClient, MachineClient, WorkloadClient}
use cluster_api_provider_bri.Claim.{is_blank, value}
use cluster_api_provider_bri.Claim.Acquire.{claim_host}
use cluster_api_provider_bri.Config.{inject_install_disk, inject_host_cert_sans}
use cluster_api_provider_bri.Config.Codec.{YamlCodec}
use cluster_api_provider_bri.MachineController.Options.{MachineReconciler, requeue_after_bootstrap}
use cluster_api_provider_bri.MachineController.Seams.{MachineSeams, Awaited, wait, have, Handled}
use cluster_api_provider_bri.MachineController.Secrets.{adoption_inputs}
use cluster_api_provider_bri.MachineController.Preflight.{
  ApplyAuth, machine_adopted_condition, resolve_apply_auth, await_control_plane_ready,
}
use cluster_api_provider_bri.MachineController.Upgrade.{with_status, is_failed}
use cluster_api_provider_bri.MachineController.Nodes.{LabelValidation}
use cluster_api_provider_bri.MachineController.Link.{WorkloadSeams, reconcile_adopted}

abbrev pub kubelet_restart_nudge_condition : String
kubelet_restart_nudge_condition = "KubeletRestartNudge"

abbrev is_set : Option String → Bool
is_set none = false
is_set (some s) = true

unfoldable pub config_unchanged : ByotMachine → String → Bool
config_unchanged m hash =
    m.status.ready && (is_set m.spec.provider_id && m.status.last_applied_config_sha == hash)

abbrev addresses_of : String → String → List (AddressType × String)
addresses_of public_ip internal =
    (external_ip, public_ip) ∷ (if internal != "" then (internal_ip, internal) ∷ [] else [])

module _ (u : Util) where
  unfoldable pub mark_adopted : String → ByotMachine → ByotMachine
  mark_adopted hash m = record m {
    spec = record m.spec { provider_id = some (provider_id_prefix ++ m.status.resolved_public_ip) };
    status = record m.status {
      ready = true;
      last_applied_config_sha = hash;
      addresses = addresses_of m.status.resolved_public_ip m.status.resolved_internal_ip;
      conditions = mark_true u m.status.conditions machine_adopted_condition;
    };
  }

  unfoldable pub mark_apply_failed : ByotMachine → ByotMachine
  mark_apply_failed m = with_status m (record m.status {
    conditions =
        mark_false u m.status.conditions machine_adopted_condition "ApplyFailed" severity_warning;
  })

  unfoldable pub mark_nudged : Bool → ByotMachine → ByotMachine
  mark_nudged restarted m = with_status m (record m.status {
    conditions =
        if restarted
        then mark_true u m.status.conditions kubelet_restart_nudge_condition
        else mark_false u m.status.conditions kubelet_restart_nudge_condition "RestartFailed"
            severity_warning;
  })

module _ {W : Type 0} (u : Util) (mc : MachineClient W) (s : MachineSeams W) where
  -- nudgeKubeletAfterReadopt; the result is the machine, and never an error.
  unfoldable pub nudge_kubelet_after_readopt :
      Option String → Bool → Bool → ByotMachine → M W ByotMachine
  unfolding mark_nudged
  nudge_kubelet_after_readopt cfg bundle_match was_ready m =
      if not bundle_match || was_ready
      then pure m
      else handle (s.service_running (machine_endpoints m) cfg "kubelet") (λ e. pure m)
          λ is_running.
            if not is_running
            then pure m
            else handle (s.restart_service (machine_endpoints m) cfg "kubelet")
                (λ e. pure (mark_nudged u false m)) λ _. pure (mark_nudged u true m)

  -- Stores the failure and returns it as the error.
  unfoldable pub record_apply_failure : ByotMachine → ByotMachine → Err → M W CtrlResult
  unfolding mark_apply_failed
  record_apply_failure helper m e = do
    wrap_err "failed to patch ByotMachine after apply failure"
        (mc.patch_machine helper (mark_apply_failed u m))
    raise e

module _ {W : Type 0} (y : YamlCodec) (s : MachineSeams W) where
  abbrev with_disk : String → String → M W String
  with_disk config disk =
      if disk == "" then pure config else lift (inject_install_disk y config disk)

  unfoldable pub resolve_install_disk : ByotMachine → String → Option String → M W String
  unfolding inject_install_disk
  resolve_install_disk m config cfg =
      if not (is_blank m.spec.install_disk)
      then with_disk config (value m.spec.install_disk)
      else handle (s.detect_system_disk (machine_endpoints m) cfg) (λ e. with_disk config "")
          (with_disk config)

  -- The configuration that is applied: the install disk, then the certificate names.
  unfoldable pub prepare_config : ByotMachine → String → Option String → M W String
  unfolding resolve_install_disk inject_host_cert_sans
  prepare_config m config cfg = do
    with_install_disk ← resolve_install_disk m config cfg
    lift (inject_host_cert_sans y with_install_disk (machine_endpoints m))

module _ {W C : Type 0} (u : Util) (hc : HostClient W) (mc : MachineClient W)
    (wc : WorkloadClient W C) (ws : WorkloadSeams W C) (v : LabelValidation) (y : YamlCodec)
    (s : MachineSeams W) (r : MachineReconciler) where
  -- applyAndMarkAdopted after the configuration is applied.
  unfoldable pub finish_adoption :
      ByotMachine → Machine → String → Option String → Bool → ByotMachine → M W CtrlResult
  unfolding nudge_kubelet_after_readopt mark_adopted reconcile_adopted
  finish_adoption helper machine hash cfg bundle_match m = do
    m' ← nudge_kubelet_after_readopt u mc s cfg bundle_match m.status.ready m
    wrap_err "failed to patch ByotMachine" (mc.patch_machine helper (mark_adopted u hash m'))
    reconcile_adopted u hc mc wc ws v s r helper (mark_adopted u hash m') machine

  -- applyAndMarkAdopted after the gate: the apply, and what follows it.
  unfoldable pub apply_config :
      ByotMachine → Machine → String → String → Option String → Bool → ByotMachine → M W CtrlResult
  unfolding prepare_config record_apply_failure finish_adoption
  apply_config helper machine config hash cfg bundle_match m =
      handle (prepare_config y s m config cfg) (record_apply_failure u mc s helper m) λ prepared.
        handle (s.apply_machine_config (machine_endpoints m) prepared cfg)
          (record_apply_failure u mc s helper m)
          λ _. finish_adoption helper machine hash cfg bundle_match m

  -- The gate on the control plane for a machine that is not adopted yet.
  unfoldable pub gate_and_apply :
      ByotMachine → Machine → String → String → Option String → Bool → ByotMachine → M W CtrlResult
  unfolding await_control_plane_ready apply_config
  gate_and_apply helper machine config hash cfg bundle_match m =
      if not m.status.ready
      then (do
        (res, handled, m') ← await_control_plane_ready u mc s r helper machine m
        if handled then pure res else apply_config helper machine config hash cfg bundle_match m')
      else apply_config helper machine config hash cfg bundle_match m

  abbrev apply_with : ByotMachine → Machine → String → String → Awaited ApplyAuth → M W CtrlResult
  apply_with helper machine config hash (wait res) = pure res
  apply_with helper machine config hash (have (cfg, bundle_match, m)) =
      gate_and_apply helper machine config hash cfg bundle_match m

  unfoldable pub apply_and_mark_adopted :
      ByotMachine → Machine → String → String → ByotMachine → M W CtrlResult
  unfolding resolve_apply_auth gate_and_apply
  apply_and_mark_adopted helper machine config hash m = do
    auth ← resolve_apply_auth u mc s r helper machine m
    apply_with helper machine config hash auth

  module _ (sha256_hex : String → String) where
    -- adopt with a claimed host.
    unfoldable pub adopt_claimed : ByotMachine → Machine → String → ByotMachine → M W CtrlResult
    unfolding config_unchanged reconcile_adopted apply_and_mark_adopted
    adopt_claimed helper machine config m =
        if is_failed m.status.upgrade_state
        then reconcile_adopted u hc mc wc ws v s r helper m machine
        else if config_unchanged m (sha256_hex config)
        then reconcile_adopted u hc mc wc ws v s r helper m machine
        else apply_and_mark_adopted helper machine config (sha256_hex config) m

    abbrev adopt_with : ByotMachine → ByotMachine → Awaited (Machine × String) → M W CtrlResult
    adopt_with helper m (wait res) = pure res
    adopt_with helper m (have (machine, config)) = do
      (res, handled, m') ← claim_host u hc mc (requeue_after_bootstrap r) helper m
      if handled then pure res else adopt_claimed helper machine config m'

    unfoldable pub adopt : ByotMachine → M W CtrlResult
    unfolding adoption_inputs claim_host adopt_claimed requeue_after_bootstrap
    adopt m = do
      helper ← wrap_err "failed to create patch helper" (mc.new_machine_helper m)
      inputs ← adoption_inputs mc r m
      adopt_with helper m inputs

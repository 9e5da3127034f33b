-- ===== src/MachineController/Delete.antt =====
-- Release in pkg/controller/byotmachine_controller.go: reconcileDelete and
-- resetCredentialCandidates; and Reconcile, which leads to it or to adoption.
pub mod Finalizer
pub mod Credentials
use cluster_api_provider_bri.Prelude.{
  String, Bool, true, false, not, Option, none, some, List, [], ◌∷◌, ◌++◌, ◌==◌, if◌then◌else◌,
}
use cluster_api_provider_bri.Prelude.Dict.{lookup}
use cluster_api_provider_bri.Go.{
  CtrlResult, no_requeue, after, Err, is_not_found, is_talos_config_not_ready, wrap,
}
use cluster_api_provider_bri.Go.Action.{
  M, Result, ok, err, handle, pure, raise, wrap_err, ◌>>=◌, ◌>>◌,
}
use cluster_api_provider_bri.Api.Meta.{Util, ObjectKey, is_deleted}
use cluster_api_provider_bri.Api.Machine.{ByotMachine}
use cluster_api_provider_bri.Endpoints.{machine_endpoints}
use cluster_api_provider_bri.Client.{HostClient, MachineClient}
use cluster_api_provider_bri.Release.{ReleaseSeams, attempt_reset, release_host}
use cluster_api_provider_bri.MachineController.Options.{
  MachineReconciler, requeue_after_reset_issued,
}
use cluster_api_provider_bri.MachineController.Seams.{MachineSeams}
use cluster_api_provider_bri.MachineController.Secrets.{
  cluster_talos_config, referenced_talos_config,
}

abbrev pub byot_machine_finalizer : String
byot_machine_finalizer = "byotmachine.infrastructure.cluster.x-k8s.io"

abbrev pub cluster_name_label : String
cluster_name_label = "cluster.x-k8s.io/cluster-name"

abbrev or_empty : Option String → String
or_empty none = ""
or_empty (some s) = s

module _ {W : Type 0} (mc : MachineClient W) where
  -- A talosconfig as one candidate; none while its secret is not ready.
  unfoldable pub candidate : String → M W String → M W (List (Option String))
  candidate context load =
      handle load (λ e. if is_talos_config_not_ready e then pure [] else raise (wrap context e))
        λ cfg. pure (some cfg ∷ [])

  abbrev referenced_candidate : Option String → String → M W (List (Option String))
  referenced_candidate none namespace = pure []
  referenced_candidate (some name) namespace =
      candidate "failed to load referenced talosconfig" (referenced_talos_config mc name namespace)

  abbrev cluster_candidate : String → String → M W (List (Option String))
  cluster_candidate name namespace =
      if name == ""
      then pure []
      else candidate "failed to load cluster talosconfig" (cluster_talos_config mc name namespace)

  unfoldable pub reset_credential_candidates : ByotMachine → M W (List (Option String))
  unfolding candidate referenced_talos_config cluster_talos_config lookup
  reset_credential_candidates m = do
    referenced ← referenced_candidate m.spec.talos_config_secret_ref m.meta.namespace
    cluster ←
        cluster_candidate (or_empty (lookup cluster_name_label m.meta.labels)) m.meta.namespace
    pure (referenced ++ (cluster ++ none ∷ []))

  -- What releaseHost calls, from the reconciler's functions.
  abbrev pub release_seams : MachineSeams W → ReleaseSeams W
  release_seams s = record {
    probe_maintenance = s.probe_maintenance;
    reset_credential_candidates = reset_credential_candidates;
    reset_machine = s.reset_machine;
  }

module _ {W : Type 0} (mc : MachineClient W) (s : MachineSeams W) where
  -- resetAdoptedHostImpl, the default of the field reset_adopted_host.
  unfoldable pub reset_adopted_host_impl : ByotMachine → M W (Unit {0})
  reset_adopted_host_impl m = do
    candidates ← reset_credential_candidates mc m
    attempt_reset (release_seams mc s) candidates (machine_endpoints m)

module _ (u : Util) where
  -- The machine without the controller's finalizer.
  abbrev pub without_machine_finalizer : ByotMachine → ByotMachine
  without_machine_finalizer m = record m {
    meta = record m.meta {
      finalizers = u.remove_finalizer m.meta.finalizers byot_machine_finalizer;
    };
  }

module _ {W : Type 0} (u : Util) (hc : HostClient W) (mc : MachineClient W) (s : MachineSeams W)
    (r : MachineReconciler) where
  -- The end of reconcileDelete: the finalizer is there, so RemoveFinalizer changes the object.
  unfoldable pub drop_finalizer : ByotMachine → M W CtrlResult
  drop_finalizer m = do
    wrap_err "failed to remove finalizer from ByotMachine"
        (mc.update_byot_machine (without_machine_finalizer u m))
    pure no_requeue

  unfoldable pub reconcile_delete : ByotMachine → M W CtrlResult
  reconcile_delete m =
      if not (u.contains_finalizer m.meta.finalizers byot_machine_finalizer)
      then pure no_requeue
      else if not (m.status.resolved_host == "")
      then handle (release_host hc (release_seams mc s) m)
          (λ e. pure (after (requeue_after_reset_issued r))) (λ _. drop_finalizer m)
      else drop_finalizer m

  -- Reconcile, over the function `adopt` of the module Adopt.
  module _ (adopt : ByotMachine → M W CtrlResult) where
    unfoldable pub reconcile_found : ByotMachine → M W CtrlResult
    unfolding reconcile_delete
    reconcile_found m = if is_deleted m.meta then reconcile_delete m else (do
      g ←
          wrap_err "failed to add finalizer to ByotMachine"
            (mc.ensure_machine_finalizer m byot_machine_finalizer)
      wrap_err "failed to adopt ByotMachine" (adopt g))

    unfoldable pub reconcile : ObjectKey → M W CtrlResult
    unfolding reconcile_found
    reconcile key =
        handle (mc.get_byot_machine key)
          (λ e.
            if is_not_found e then pure no_requeue else raise (wrap "failed to get ByotMachine" e))
          reconcile_found

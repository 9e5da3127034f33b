-- ===== src/HostController.antt =====
-- pkg/controller/byothost_controller.go: discovery and liveness of the hosts in the registry. A
-- method that changes the host returns the new record; what is stored is what patchHost sends.
mod Options
mod Marks
pub mod Phases
pub mod Liveness
pub mod Deletion
pub mod Mixed
pub use Options.{HostReconciler, ByotHostOptions, or_keep}
unfoldable pub use Options.{
  new_byot_host_reconciler, set_options, liveness_interval, failure_threshold, probe_requeue,
  claimed_requeue,
}
pub use Marks.{
  DiscoveryResult, HostSeams, byot_host_finalizer, is_mixed, or_else, with_status,
  without_finalizer,
}
unfoldable pub use Marks.{
  populate_from_discovery, mark_available, mark_alive, mark_discovery_failed, mark_probe_failed,
  mark_probed, drop_claim,
}
use cluster_api_provider_bri.Prelude.{
  ℕ, String, Bool, true, false, not, Option, none, some, List, if◌then◌else◌,
}
use cluster_api_provider_bri.Prelude.Int.{ℤ, pos, inc_int32, geb_ℤ}
use cluster_api_provider_bri.Go.{CtrlResult, no_requeue, after, is_not_found, wrap}
use cluster_api_provider_bri.Go.Action.{M, ok, err, handle, pure, raise, wrap_err, ask, ◌>>=◌, ◌>>◌}
use cluster_api_provider_bri.Api.Meta.{
  ObjectKey, ObjectMeta, Util, is_deleted, mark_true, mark_false, Severity, severity_info,
  severity_warning, Conditions,
}
use cluster_api_provider_bri.Api.Host.{
  ByotHost, ByotHostStatus, HostPhase, unset, probing, available, claimed, releasing, unavailable,
  unknown_phase, HostClaimRef, HostCpu, HostDisk, HostGpu, HostIdentity, host_discovered_condition,
  host_maintenance_probe_condition, mixed_gpu_models_reason,
}
use cluster_api_provider_bri.Endpoints.{Endpoints, host_endpoints}
use cluster_api_provider_bri.Discovery.Labels.{apply_discovery_labels}
use cluster_api_provider_bri.Client.{HostClient}

module _ {W : Type 0} (u : Util) (c : HostClient W) (s : HostSeams W) (r : HostReconciler) where
  -- `helper` is the snapshot that the patch helper was made from.
  unfoldable pub patch_host : ByotHost → ByotHost → M W (Unit {0})
  patch_host helper h = wrap_err "failed to patch ByotHost" (c.patch_host helper h)

  -- Stores the host, and reconciles again after `d`.
  unfoldable pub patch_and_requeue : ByotHost → ByotHost → ℤ → M W CtrlResult
  unfolding patch_host
  patch_and_requeue helper h d = do patch_host helper h; pure (after d)

  unfoldable pub record_discovery_failure : ByotHost → ByotHost → M W CtrlResult
  unfolding mark_discovery_failed patch_and_requeue probe_requeue
  record_discovery_failure helper h = do
    t ← ask c.now
    patch_and_requeue helper (mark_discovery_failed u t h) (probe_requeue r)

  unfoldable pub record_probe_failure : ByotHost → ByotHost → M W CtrlResult
  unfolding mark_probe_failed patch_and_requeue probe_requeue failure_threshold
  record_probe_failure helper h = do
    t ← ask c.now
    patch_and_requeue helper (mark_probe_failed u (failure_threshold r) t h) (probe_requeue r)

  -- Discovery, and on success the host as `done` leaves it; the common part of three methods.
  unfoldable pub discover_and_mark : (ByotHost → ByotHost) → ByotHost → ByotHost → M W CtrlResult
  unfolding record_discovery_failure populate_from_discovery mark_available patch_and_requeue
      liveness_interval
  discover_and_mark done helper h =
      handle (s.discover (host_endpoints h) h.spec.public_ip)
        (λ e. record_discovery_failure helper h)
        λ result. do
          t ← ask c.now
          patch_and_requeue helper (mark_available u (done (populate_from_discovery u t result h)))
              (liveness_interval r)

  unfoldable pub reconcile_probing : ByotHost → ByotHost → M W CtrlResult
  unfolding discover_and_mark
  reconcile_probing helper h = discover_and_mark (λ g. g) helper h

  unfoldable pub reconcile_available : ByotHost → ByotHost → M W CtrlResult
  unfolding mark_alive record_probe_failure patch_and_requeue liveness_interval
  reconcile_available helper h = do
    alive ← ask (s.probe_maintenance (host_endpoints h))
    if alive
        then (do t ← ask c.now; patch_and_requeue helper (mark_alive u t h) (liveness_interval r))
        else record_probe_failure helper h

  -- The host does not answer yet: its phase stays.
  unfoldable pub keep_waiting : ByotHost → ByotHost → M W CtrlResult
  unfolding mark_probed patch_and_requeue probe_requeue
  keep_waiting helper h = do
    t ← ask c.now
    patch_and_requeue helper (mark_probed t h) (probe_requeue r)

  unfoldable pub reconcile_unavailable : ByotHost → ByotHost → M W CtrlResult
  unfolding discover_and_mark keep_waiting
  reconcile_unavailable helper h = do
    alive ← ask (s.probe_maintenance (host_endpoints h))
    if not alive then keep_waiting helper h else discover_and_mark (λ g. g) helper h

  unfoldable pub reconcile_releasing : ByotHost → ByotHost → M W CtrlResult
  unfolding discover_and_mark keep_waiting drop_claim
  reconcile_releasing helper h = do
    alive ← ask (s.probe_maintenance (host_endpoints h))
    if not alive then keep_waiting helper h else discover_and_mark drop_claim helper h

  -- The switch of reconcileHost.
  unfoldable pub reconcile_phase : HostPhase → ByotHost → ByotHost → M W CtrlResult
  unfolding reconcile_probing reconcile_available reconcile_unavailable reconcile_releasing
      claimed_requeue
  reconcile_phase unset helper h = reconcile_probing helper h
  reconcile_phase probing helper h = reconcile_probing helper h
  reconcile_phase available helper h = reconcile_available helper h
  reconcile_phase unavailable helper h = reconcile_unavailable helper h
  reconcile_phase claimed helper h = pure (after (claimed_requeue r))
  reconcile_phase releasing helper h = reconcile_releasing helper h
  reconcile_phase (unknown_phase p) helper h = reconcile_probing helper h

  unfoldable pub reconcile_host : ByotHost → ByotHost → M W CtrlResult
  unfolding reconcile_phase
  reconcile_host helper h = reconcile_phase h.status.phase helper h

  abbrev has_claim : Option HostClaimRef → Bool
  has_claim none = false
  has_claim (some ref) = true

  unfoldable pub reconcile_delete : ByotHost → M W CtrlResult
  unfolding probe_requeue
  reconcile_delete h =
      if not (u.contains_finalizer h.meta.finalizers byot_host_finalizer)
      then pure no_requeue
      else if has_claim h.status.claim_ref
      then pure (after (probe_requeue r))
      else (do
        wrap_err "failed to remove finalizer from ByotHost" (c.update_host (without_finalizer u h))
        pure no_requeue)

  -- The part of Reconcile after the Get.
  unfoldable pub reconcile_found : ByotHost → M W CtrlResult
  unfolding reconcile_delete reconcile_host
  reconcile_found h = if is_deleted h.meta then reconcile_delete h else (do
    g ←
        wrap_err "failed to add finalizer to ByotHost"
          (c.ensure_host_finalizer h byot_host_finalizer)
    helper ← wrap_err "failed to create patch helper for ByotHost" (c.new_host_helper g)
    reconcile_host helper g)

  unfoldable pub reconcile : ObjectKey → M W CtrlResult
  unfolding reconcile_found
  reconcile key =
      handle (c.get_host key)
        (λ e. if is_not_found e then pure no_requeue else raise (wrap "failed to get ByotHost" e))
        reconcile_found

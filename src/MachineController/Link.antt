-- ===== src/MachineController/Link.antt =====
-- The steady state of an adopted machine in pkg/controller/byotmachine_controller.go: linkNode,
-- updateNodeProviderID, resolveWorkloadClient, syncNodeLabels, ensureNodeLinked and
-- reconcileAdopted.
pub mod Quiet
use cluster_api_provider_bri.Prelude.{
  String, Bool, true, false, not, ◌||◌, Option, none, some, ◌==◌, if◌then◌else◌,
}
use cluster_api_provider_bri.Prelude.Int.{is_pos}
use cluster_api_provider_bri.Prelude.Dict.{Dict, lookup, insert, keep}
use cluster_api_provider_bri.Go.{
  CtrlResult, no_requeue, after, Err, is_not_found, is_cluster_not_connected, is_kubeconfig_pending,
  is_workload_node_pending, requeue_kubeconfig_pending, wrap,
}
use cluster_api_provider_bri.Go.Action.{M, handle, pure, raise, wrap_err, ask, ◌>>=◌, ◌>>◌}
use cluster_api_provider_bri.Api.Meta.{Util, ObjectKey, key_of}
use cluster_api_provider_bri.Api.Host.{ByotHost}
use cluster_api_provider_bri.Api.Machine.{ByotMachine}
use cluster_api_provider_bri.Api.Cluster.{Machine}
use cluster_api_provider_bri.Client.{HostClient, MachineClient, WorkloadClient}
use cluster_api_provider_bri.Claim.{resolved_key}
use cluster_api_provider_bri.MachineController.Options.{MachineReconciler, requeue_after_node_link}
use cluster_api_provider_bri.MachineController.Seams.{MachineSeams}
use cluster_api_provider_bri.MachineController.Nodes.{
  LabelValidation, patch_workload_node, patch_workload_node_labels,
}
use cluster_api_provider_bri.MachineController.Upgrade.{with_status}
use cluster_api_provider_bri.MachineController.Upgrade.Poll.{ensure_talos_version}
use cluster_api_provider_bri.MachineController.Watch.{node_link_retrigger_annotation}

-- The two ways to a client of the workload cluster. ClusterCache is not wired where
-- `get_workload_client` is `none`; `ip_direct_client` is the seam, or buildIPDirectClient.
pub record WorkloadSeams (W C : Type 0) : Type 0 where
  pub get_workload_client : Option (ObjectKey → M W C)
  pub ip_direct_client : ObjectKey → ByotMachine → M W C

-- SetClusterCache: the clients come from the cache.
unfoldable pub set_cluster_cache :
    {W C : Type 0} → (ObjectKey → M W C) → WorkloadSeams W C → WorkloadSeams W C
set_cluster_cache get ws = record ws { get_workload_client = some get }

abbrev pub cluster_key : Machine → ByotMachine → ObjectKey
cluster_key machine m = record { namespace = m.meta.namespace; name = machine.cluster_name }

abbrev pub is_requeue : CtrlResult → Bool
is_requeue res = res.requeue || is_pos res.requeue_after

unfoldable pub mark_node_updated : ByotMachine → ByotMachine
mark_node_updated m = with_status m (record m.status { node_updated = true })

abbrev set_annotations : ByotMachine → Dict String → ByotMachine
set_annotations m a = record m { meta = record m.meta { annotations = a } }

unfoldable pub clear_retrigger : ByotMachine → ByotMachine
clear_retrigger m =
    set_annotations m (keep (λ k v. not (k == node_link_retrigger_annotation)) m.meta.annotations)

unfoldable pub bump_retrigger : String → ByotMachine → ByotMachine
bump_retrigger now m =
    set_annotations m (insert node_link_retrigger_annotation now m.meta.annotations)

abbrev has_key : Option String → Bool
has_key none = false
has_key (some v) = true

module _ {W C : Type 0} (ws : WorkloadSeams W C) where
  unfoldable pub resolve_workload_client : (ObjectKey → M W C) → ObjectKey → ByotMachine → M W C
  resolve_workload_client get key m =
      handle (get key)
        (λ e.
          if not (is_cluster_not_connected e)
          then raise (wrap "failed to get workload cluster client" e)
          else handle (ws.ip_direct_client key m)
              (λ f.
                if is_not_found f
                then raise requeue_kubeconfig_pending
                else raise (wrap "failed to build IP-direct client" f))
              pure)
        pure

module _ {W C : Type 0} (hc : HostClient W) (mc : MachineClient W) (wc : WorkloadClient W C)
    (ws : WorkloadSeams W C) (v : LabelValidation) (r : MachineReconciler) where
  -- updateNodeProviderID with a client.
  unfoldable pub write_provider_id :
      ByotMachine → ByotMachine → String → C → M W (CtrlResult × ByotMachine)
  unfolding patch_workload_node mark_node_updated requeue_after_node_link
  write_provider_id helper m provider_id client =
      handle (patch_workload_node wc client m.meta.name provider_id)
        (λ e.
          if is_workload_node_pending e
          then pure (after (requeue_after_node_link r), m)
          else raise e)
        λ _. do
          wrap_err "failed to patch ByotMachine after Node providerID update"
              (mc.patch_machine helper (mark_node_updated m))
          pure (no_requeue, mark_node_updated m)

  -- A failed resolveWorkloadClient: wait for the kubeconfig, or fail.
  abbrev or_pending : ByotMachine → Err → M W (CtrlResult × ByotMachine)
  or_pending m e =
      if is_kubeconfig_pending e then pure (after (requeue_after_node_link r), m) else raise e

  abbrev provider_id_by :
      ByotMachine
      → ByotMachine
      → Machine
      → Option String
      → Option (ObjectKey → M W C)
      → M W (CtrlResult × ByotMachine)
  provider_id_by helper m machine none get = pure (no_requeue, m)
  provider_id_by helper m machine (some id) none = pure (no_requeue, m)
  provider_id_by helper m machine (some id) (some get) =
      handle (resolve_workload_client ws get (cluster_key machine m) m) (or_pending m)
        (write_provider_id helper m id)

  unfoldable pub update_node_provider_id :
      ByotMachine → ByotMachine → Machine → M W (CtrlResult × ByotMachine)
  unfolding resolve_workload_client write_provider_id requeue_after_node_link
  update_node_provider_id helper m machine =
      if m.status.node_updated
      then pure (no_requeue, m)
      else provider_id_by helper m machine m.spec.provider_id ws.get_workload_client

  -- syncNodeLabels with a client.
  unfoldable pub write_labels : ByotMachine → Dict String → C → M W CtrlResult
  unfolding patch_workload_node_labels requeue_after_node_link
  write_labels m labels client =
      handle (patch_workload_node_labels wc v client m.meta.name labels)
        (λ e.
          if is_workload_node_pending e then pure (after (requeue_after_node_link r)) else raise e)
        λ _. pure no_requeue

  unfoldable pub sync_labels_of :
      (ObjectKey → M W C) → ByotMachine → Machine → ByotHost → M W CtrlResult
  unfolding resolve_workload_client write_labels requeue_after_node_link
  sync_labels_of get m machine h =
      handle (resolve_workload_client ws get (cluster_key machine m) m)
        (λ e. if is_kubeconfig_pending e then pure (after (requeue_after_node_link r)) else raise e)
        (write_labels m h.meta.labels)

  abbrev sync_by : Option (ObjectKey → M W C) → ByotMachine → Machine → M W CtrlResult
  sync_by none m machine = pure no_requeue
  sync_by (some get) m machine =
      if m.status.resolved_host == ""
      then pure no_requeue
      else handle (hc.get_host (resolved_key m))
          (λ e.
            if is_not_found e
            then pure no_requeue
            else raise (wrap "failed to get ByoHost for label sync" e))
          (sync_labels_of get m machine)

  unfoldable pub sync_node_labels : ByotMachine → Machine → M W CtrlResult
  unfolding sync_labels_of
  sync_node_labels m machine = sync_by ws.get_workload_client m machine

  -- ensureNodeLinked with the owner Machine as it is now.
  unfoldable pub link_or_retrigger : ByotMachine → ByotMachine → Machine → M W CtrlResult
  unfolding clear_retrigger bump_retrigger requeue_after_node_link lookup
  link_or_retrigger helper m latest =
      if latest.has_node_ref
      then (if has_key (lookup node_link_retrigger_annotation m.meta.annotations)
          then (do
            wrap_err "failed to patch ByotMachine after clearing node-link annotation"
                (mc.patch_machine helper (clear_retrigger m))
            pure no_requeue)
          else pure no_requeue)
      else (do
        now ← ask mc.unix_nano
        wrap_err "failed to patch ByotMachine with node-link retrigger"
            (mc.patch_machine helper (bump_retrigger now m))
        pure (after (requeue_after_node_link r)))

  unfoldable pub ensure_node_linked : ByotMachine → ByotMachine → Machine → M W CtrlResult
  unfolding link_or_retrigger
  ensure_node_linked helper m machine =
      if not m.status.ready || not (has_key m.spec.provider_id) then pure no_requeue else (do
        latest ← wrap_err "failed to get owner Machine" (mc.get_machine (key_of machine.meta))
        link_or_retrigger helper m latest)

  unfoldable pub link_node : ByotMachine → ByotMachine → Machine → M W CtrlResult
  unfolding update_node_provider_id sync_node_labels ensure_node_linked
  link_node helper m machine = do
    (res, m') ← update_node_provider_id helper m machine
    if is_requeue res then pure res else (do
      label_res ← sync_node_labels m' machine
      if is_requeue label_res then pure label_res else ensure_node_linked helper m' machine)

module _ {W C : Type 0} (u : Util) (hc : HostClient W) (mc : MachineClient W)
    (wc : WorkloadClient W C) (ws : WorkloadSeams W C) (v : LabelValidation) (s : MachineSeams W)
    (r : MachineReconciler) where
  unfoldable pub reconcile_adopted : ByotMachine → ByotMachine → Machine → M W CtrlResult
  unfolding ensure_talos_version link_node
  reconcile_adopted helper m machine = do
    (res, handled, m') ← ensure_talos_version u hc mc s r helper m machine
    if handled then pure res else link_node hc mc wc ws v r helper m' machine

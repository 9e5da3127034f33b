-- ===== src/HostController/Deletion.antt =====
-- Deletion of a host (reconcileDelete and Reconcile of pkg/controller/byothost_controller.go).
use cluster_api_provider_bri.Prelude.{
  Bool, true, false, Option, none, some, List, [], ◌∷◌, ◌≡◌, arith,
}
use cluster_api_provider_bri.Api.Meta.{Util, UtilLaws}
use cluster_api_provider_bri.Api.Host.{ByotHost, HostClaimRef}
use cluster_api_provider_bri.Client.{HostClient}
use cluster_api_provider_bri.Client.Journal.{HostWrite, updated, journaled, journal}
use cluster_api_provider_bri.HostController.{
  HostReconciler, byot_host_finalizer, reconcile_delete, without_finalizer,
}
use cluster_api_provider_bri.HostController.{HostSeams}
use cluster_api_provider_bri.HostController.Phases.{lifted}

-- The writes of a deletion: none while the host is claimed or has no finalizer of the controller,
-- and otherwise one update of the host without that finalizer.
abbrev pub deletion_writes : Util → ByotHost → Option HostClaimRef → Bool → List HostWrite
deletion_writes u h (some ref) has = []
deletion_writes u h none false = []
deletion_writes u h none true = updated (without_finalizer u h) ∷ []

-- A reconcile of a host that is being deleted writes exactly what `deletion_writes` says, whatever
-- the API server answers: nothing as long as a claim is recorded, so the finalizer stays and the
-- host is not deleted; and the finalizer is gone from the object that it does send.
pub reconcile_delete-writes :
    {W : Type 0} (u : Util) (laws : UtilLaws u) (c : HostClient W) (s : HostSeams W)
    (r : HostReconciler) (h : ByotHost) (w : W)
    → (journal (reconcile_delete u (journaled c) (lifted s) r h (w, []))
        ≡ deletion_writes u h h.status.claim_ref
            (u.contains_finalizer h.meta.finalizers byot_host_finalizer))
      × (u.contains_finalizer (without_finalizer u h).meta.finalizers byot_host_finalizer ≡ false)
unfolding reconcile_delete
reconcile_delete-writes u laws c s r h w =
    (ground arith, laws.contains-remove h.meta.finalizers byot_host_finalizer)

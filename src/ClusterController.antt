-- ===== src/ClusterController.antt =====
-- pkg/controller/byotcluster_controller.go: adopted clusters need no infrastructure, so the
-- controller only reports that a ByotCluster (api/v1alpha1/byotcluster_types.go) is ready.
use cluster_api_provider_bri.Prelude.{ℕ, ◌+◌, Bool, true, none, ◌≡◌, arith, if◌then◌else◌}
use cluster_api_provider_bri.Go.{CtrlResult, no_requeue, is_not_found, wrap}
use cluster_api_provider_bri.Go.Action.{M, ok, handle, pure, raise, wrap_err, ◌>>=◌, ◌>>◌}
use cluster_api_provider_bri.Api.Meta.{ObjectKey, ObjectMeta, Conditions, is_deleted}

pub record ByotClusterStatus : Type 0 where
  pub ready : Bool
  pub conditions : Conditions

-- The control plane endpoint of the spec is not read.
pub record ByotCluster : Type 0 where
  pub meta : ObjectMeta
  pub status : ByotClusterStatus

-- The calls on ByotClusters.
pub record ClusterClient (W : Type 0) : Type 0 where
  pub get_cluster : ObjectKey → M W ByotCluster
  pub new_cluster_helper : ByotCluster → M W ByotCluster
  pub patch_cluster : ByotCluster → ByotCluster → M W (Unit {0})

unfoldable pub mark_cluster_ready : ByotCluster → ByotCluster
mark_cluster_ready c = record c { status = record c.status { ready = true } }

module _ {W : Type 0} (cc : ClusterClient W) where
  -- Reconcile on the cluster that it fetched.
  unfoldable pub reconcile_cluster : ByotCluster → M W CtrlResult
  unfolding mark_cluster_ready
  reconcile_cluster c =
      if is_deleted c.meta then pure no_requeue else if c.status.ready then pure no_requeue else (do
        helper ← wrap_err "failed to create patch helper for ByotCluster" (cc.new_cluster_helper c)
        wrap_err "failed to patch ByotCluster" (cc.patch_cluster helper (mark_cluster_ready c))
        pure no_requeue)

  unfoldable pub reconcile : ObjectKey → M W CtrlResult
  unfolding reconcile_cluster
  reconcile key =
      handle (cc.get_cluster key)
        (λ e.
          if is_not_found e then pure no_requeue else raise (wrap "failed to get ByotCluster" e))
        reconcile_cluster

-- An API server that keeps one cluster and the number of the patches that it stored.
pub record OneCluster : Type 0 where
  pub stored : ByotCluster
  pub patches : ℕ

abbrev pub keeping : ClusterClient OneCluster
keeping = record {
  get_cluster = λ k w. (ok w.stored, w);
  new_cluster_helper = λ c w. (ok c, w);
  patch_cluster = λ b c w. (ok tt, record { stored = c; patches = w.patches + 1 });
}

-- A reconcile of a cluster that is not being deleted leaves it ready, with one patch if it was not
-- ready and none otherwise, and changes nothing else; the next reconcile changes nothing at all.
pub reconcile-ready :
    (key : ObjectKey) (w : OneCluster)
    → w.stored.meta.deletion_timestamp ≡ none
    → ((reconcile keeping key w).1.stored ≡ mark_cluster_ready w.stored)
      × ((reconcile keeping key w).1.patches
          ≡ (if w.stored.status.ready then w.patches else w.patches + 1))
      × ((reconcile keeping key ((reconcile keeping key w).1)).1 ≡ (reconcile keeping key w).1)
unfolding reconcile
reconcile-ready key w live = grind arith

-- ===== src/MachineController/Nodes.antt =====
-- The workload Node in pkg/controller/byotmachine_controller.go: isReservedLabel, isValidLabel,
-- filterHostLabels, needsNodePatch, hasUninitializedTaint, removeUninitializedTaint,
-- applyNodePatch, getWorkloadNode, patchWorkloadNode and patchWorkloadNodeLabels.
pub mod Converge
pub mod Labels
use Prim.Native.String.{◌++◌}
use cluster_api_provider_bri.Prelude.{
  String, ◌≡◌, refl, Bool, true, false, not, ◌&&◌, ◌||◌, Option, none, some, List, [], ◌∷◌, ◌==◌,
  ◌!=◌, if◌then◌else◌,
}
use cluster_api_provider_bri.Prelude.Text.{has_suffix, before}
use cluster_api_provider_bri.Prelude.Dict.{Dict, lookup, insert, keep}
use cluster_api_provider_bri.Go.{Err, is_not_found, workload_node_pending, wrap}
use cluster_api_provider_bri.Go.Action.{M, handle, pure, raise, wrap_err, ◌>>=◌, ◌>>◌}
use cluster_api_provider_bri.Api.Meta.{ObjectMeta}
use cluster_api_provider_bri.Api.Cluster.{Node, Taint, uninitialized_taint}
use cluster_api_provider_bri.Client.{WorkloadClient}

-- One round of the loop over the reserved domains.
abbrev in_domain : String → String → Bool
in_domain prefix domain = prefix == domain || has_suffix prefix ("." ++ domain)

unfoldable pub is_reserved_label : String → Bool
unfolding before has_suffix
is_reserved_label key =
    let prefix = before b'/' key in
    if prefix == ""
    then false
    else in_domain prefix "kubernetes.io"
      || (in_domain prefix "k8s.io" || in_domain prefix "cluster.x-k8s.io")

-- Package validation of k8s.io/apimachinery: whether a key is a qualified name, and whether a value
-- is a label value (no error messages).
pub record LabelValidation : Type 0 where
  pub is_qualified_name : String → Bool
  pub is_valid_label_value : String → Bool

module _ (v : LabelValidation) where
  unfoldable pub is_valid_label : String → String → Bool
  is_valid_label key value =
      if not (v.is_qualified_name key)
      then false
      else if not (v.is_valid_label_value value)
      then false
      else true

  -- The labels that the loop of filterHostLabels does not skip.
  unfoldable pub is_propagated : String → String → Bool
  unfolding is_valid_label
  is_propagated key value =
      if is_reserved_label key
      then false
      else if not (is_valid_label key value)
      then false
      else true

  unfoldable pub filter_host_labels : Dict String → Dict String
  unfolding keep is_propagated
  filter_host_labels labels = keep is_propagated labels

unfoldable pub has_uninitialized_taint : List Taint → Bool
has_uninitialized_taint [] = false
has_uninitialized_taint (t ∷ ts) =
    if t.key == uninitialized_taint then true else has_uninitialized_taint ts

unfoldable pub remove_uninitialized_taint : List Taint → List Taint
remove_uninitialized_taint [] = []
remove_uninitialized_taint (t ∷ ts) =
    let rest = remove_uninitialized_taint ts in
    if t.key != uninitialized_taint then t ∷ rest else rest

-- Whether the providerID differs, and whether the taint is there.
unfoldable pub needs_node_patch : Node → String → Bool × Bool
unfolding has_uninitialized_taint
needs_node_patch n provider_id = (n.provider_id != provider_id, has_uninitialized_taint n.taints)

unfoldable pub apply_node_patch : String → Bool × Bool → Node → Node
unfolding remove_uninitialized_taint
apply_node_patch provider_id (mismatch, tainted) n = record n {
  provider_id = if mismatch then provider_id else n.provider_id;
  taints = if tainted then remove_uninitialized_taint n.taints else n.taints;
}

-- The entries of the first map that the second one lacks or has with another value: `toApply`.
abbrev pub is_entry : String → Option String → Bool
is_entry value none = false
is_entry value (some existing) = existing == value

unfoldable pub missing_labels : Dict String → Dict String → Dict String
unfolding keep lookup
missing_labels wanted present = keep (λ k v. not (is_entry v (lookup k present))) wanted

-- maps.Copy(dst, src)
unfoldable pub copy_labels : Dict String → Dict String → Dict String
unfolding insert
copy_labels [] dst = dst
copy_labels ((k, v) ∷ src) dst = copy_labels src (insert k v dst)

abbrev is_empty : Dict String → Bool
is_empty [] = true
is_empty (e ∷ m) = false

abbrev pub set_labels : Node → Dict String → Node
set_labels n l = record n { meta = record n.meta { labels = l } }

module _ {W C : Type 0} (wc : WorkloadClient W C) where
  unfoldable pub get_workload_node : C → String → M W Node
  get_workload_node client name =
      handle (wc.get_node client name)
        (λ e.
          if is_not_found e
          then raise workload_node_pending
          else raise (wrap "failed to get workload Node" e))
        pure

  -- Whether the providerID was there already.
  unfoldable pub patch_workload_node : C → String → String → M W Bool
  unfolding get_workload_node needs_node_patch apply_node_patch
  patch_workload_node client name provider_id = do
    node ← get_workload_node client name
    let need = needs_node_patch node provider_id
    if not need.0 && not need.1 then pure true else (do
      helper ←
          wrap_err "failed to create patch helper for workload Node"
            (wc.new_node_helper client node)
      wrap_err "failed to patch workload Node"
          (wc.patch_node client helper (apply_node_patch provider_id need node))
      pure (not need.0))

  -- patchWorkloadNodeLabels once the node is fetched.
  unfoldable pub add_labels : C → Dict String → Node → M W (Unit {0})
  unfolding missing_labels copy_labels
  add_labels client wanted node =
      let to_apply = missing_labels wanted node.meta.labels in
      if is_empty to_apply then pure tt else (do
        helper ←
            wrap_err "failed to create patch helper for Node labels"
              (wc.new_node_helper client node)
        wrap_err "failed to patch workload Node labels"
            (wc.patch_node client helper (set_labels node (copy_labels to_apply node.meta.labels)))
        pure tt)

  unfoldable pub patch_workload_node_labels :
      LabelValidation → C → String → Dict String → M W (Unit {0})
  unfolding filter_host_labels add_labels get_workload_node
  patch_workload_node_labels v client name host_labels =
      let filtered = filter_host_labels v host_labels in
      if is_empty filtered
      then pure tt
      else (do node ← get_workload_node client name; add_labels client filtered node)

-- ===== src/Tests/Workload.antt =====
-- A workload cluster that answers every call, and the fields of the reconciler around it.
use cluster_api_provider_bri.Prelude.{true, none, some}
use cluster_api_provider_bri.Go.Action.{ok}
use cluster_api_provider_bri.Client.{WorkloadClient}
use cluster_api_provider_bri.MachineController.Link.{WorkloadSeams}
use cluster_api_provider_bri.MachineController.Nodes.{LabelValidation}
use cluster_api_provider_bri.Tests.Objects.{new_node}

abbrev pub workload : {W : Type 0} → WorkloadClient W (Unit {0})
workload = record {
  get_node = λ c n w. (ok new_node, w);
  new_node_helper = λ c n w. (ok n, w);
  patch_node = λ c b n w. (ok tt, w);
}

abbrev pub connected : {W : Type 0} → WorkloadSeams W (Unit {0})
connected = record {
  get_workload_client = some (λ k w. (ok tt, w));
  ip_direct_client = λ k m w. (ok tt, w);
}

-- ClusterCache is not wired.
abbrev pub unconnected : {W : Type 0} → WorkloadSeams W (Unit {0})
unconnected = record { get_workload_client = none; ip_direct_client = λ k m w. (ok tt, w) }

abbrev pub all_valid : LabelValidation
all_valid = record { is_qualified_name = λ k. true; is_valid_label_value = λ v. true }

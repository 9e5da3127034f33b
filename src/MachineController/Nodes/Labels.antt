-- ===== src/MachineController/Nodes/Labels.antt =====
-- Which labels of a ByotHost reach the workload Node (filterHostLabels and patchWorkloadNodeLabels of
-- pkg/controller/byotmachine_controller.go).
use cluster_api_provider_bri.Prelude.{String, Option, none, some}
use cluster_api_provider_bri.Prelude.Dict.{Dict}
use cluster_api_provider_bri.MachineController.Nodes.{
  LabelValidation, filter_host_labels, missing_labels, copy_labels,
}

abbrev pub or_else : Option String → Option String → Option String
or_else none o = o
or_else (some v) o = some v

-- The labels that the Node has after the sync.
abbrev pub synced : LabelValidation → Dict String → Dict String → Dict String
synced v host node = copy_labels (missing_labels (filter_host_labels v host) node) node

-- ===== src/MachineController/Nodes/Converge.antt =====
-- The patch of the workload Node converges (needsNodePatch, applyNodePatch and
-- removeUninitializedTaint of pkg/controller/byotmachine_controller.go).

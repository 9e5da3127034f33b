-- ===== src/MachineController.antt =====
-- pkg/controller/byotmachine_controller.go: the controller that adopts a claimed host as a machine
-- of a cluster. Child modules: Options (tunables), Seams (what it calls on a Talos machine),
-- Secrets (bootstrap data and talosconfigs), Preflight (the join preflight), Upgrade (the Talos
-- upgrade), Nodes (taints and labels of the workload Node), Link (providerID, labels, nodeRef),
-- Adopt (adoption and the entry point), Delete (release) and Watch (the event filters).
pub mod Trace
pub mod Options
pub mod Seams
pub mod Secrets
pub mod Preflight
pub mod Upgrade
pub mod Nodes
pub mod Watch
pub mod Wiring
pub mod Link
pub mod IpDirect
pub mod Adopt
pub mod Delete

-- ===== src/MachineController/Upgrade/Order.antt =====
-- What the upgrade state machine does to the machine and in what order (ensureTalosVersion of
-- pkg/controller/byotmachine_controller.go and the functions that it calls).
use cluster_api_provider_bri.Api.Cluster.{Machine}

-- ===== src/Tests/Objects.antt =====
-- A host, a machine of a cluster, and what belongs to them.
use cluster_api_provider_bri.Prelude.{String, Bool, true, false, Option, none, some, List, [], ◌∷◌}
use cluster_api_provider_bri.Prelude.Int.{pos}
use cluster_api_provider_bri.Api.Meta.{ObjectMeta, Conditions, status_true, severity_none}
use cluster_api_provider_bri.Api.Host.{
  ByotHost, HostPhase, HostClaimRef, HostDisk, HostGpu, available, probing,
  host_maintenance_probe_condition,
}
use cluster_api_provider_bri.Api.Machine.{ByotMachine, UpgradeState, no_upgrade}
use cluster_api_provider_bri.Api.Cluster.{Machine, Cluster, Secret, Node, uninitialized_taint}
use cluster_api_provider_bri.HostController.{DiscoveryResult, HostReconciler}
use cluster_api_provider_bri.MachineController.Options.{MachineReconciler}

abbrev pub meta_of : String → String → List String → ObjectMeta
meta_of name uid finalizers = record {
  name = name;
  namespace = "default";
  uid = uid;
  generation = pos 1;
  labels = [];
  annotations = [];
  finalizers = finalizers;
  deletion_timestamp = none;
}

abbrev pub no_conditions : Conditions
no_conditions = record { entries = [] }

abbrev pub probed : Conditions
probed = record {
  entries =
      (
        host_maintenance_probe_condition,
        record { status = status_true; reason = ""; severity = severity_none },
      )
      ∷ [];
}

abbrev pub host_in : HostPhase → Option HostClaimRef → ByotHost
host_in phase ref = record {
  meta = meta_of "host-a" "h1" [];
  spec = record { public_ip = "203.0.113.7"; failure_domain = none };
  status = record {
    phase = phase;
    talos_version = "";
    arch = "amd64";
    platform = "metal";
    hardware = none;
    identity = none;
    maintenance_mode = true;
    claim_ref = ref;
    probe_failure_count = pos 0;
    last_probed_at = none;
    conditions = probed;
  };
}

abbrev pub free_host : ByotHost
free_host = host_in available none

abbrev pub new_host : ByotHost
new_host = host_in probing none

abbrev pub other_claim : HostClaimRef
other_claim = record { kind = "ByotMachine"; name = "m2"; namespace = "default"; uid = "u2" }

abbrev pub machine_in :
    String → Bool → UpgradeState → Option String → Option String → List String → ByotMachine
machine_in resolved ready state_ ref desired finalizers = record {
  meta = meta_of "m1" "u1" finalizers;
  spec = record {
    host_ref = ref;
    host_selector = none;
    talos_config_secret_ref = none;
    provider_id = none;
    failure_domain = none;
    desired_talos_version = desired;
    install_disk = none;
  };
  status = record {
    ready = ready;
    resolved_host = resolved;
    resolved_public_ip = "203.0.113.7";
    resolved_internal_ip = "";
    last_applied_config_sha = "";
    last_reset_at = none;
    node_updated = false;
    addresses = [];
    conditions = no_conditions;
    current_talos_version = "";
    upgrade_state = state_;
    upgrade_probe_failures = pos 0;
    upgrade_attempt_generation = pos 0;
    upgrade_applied_image_ref = "";
    upgrade_pre_reboot_boot_id = "";
  };
}

-- A machine that holds no host and names one; one that holds a host; one that wants an upgrade.
abbrev pub unresolved_machine : ByotMachine
unresolved_machine = machine_in "" false no_upgrade (some "host-a") none []

abbrev pub holding_machine : List String → ByotMachine
holding_machine finalizers = machine_in "host-a" false no_upgrade none none finalizers

abbrev pub upgrading_machine : UpgradeState → ByotMachine
upgrading_machine state_ = machine_in "host-a" true state_ none (some "installer:v1.9.0") []

abbrev pub worker : Machine
worker = record {
  meta = meta_of "w1" "w1" [];
  cluster_name = "prod";
  data_secret_name = some "boot";
  has_node_ref = false;
}

abbrev pub cluster_without_control_plane : Cluster
cluster_without_control_plane = record { meta = meta_of "prod" "c1" []; conditions = no_conditions }

abbrev pub talos_secret : Secret
talos_secret = record { entries = ("talosconfig", "cfg") ∷ [] }

abbrev pub host_reconciler : HostReconciler
host_reconciler = record {
  liveness_interval = pos 60000000000;
  failure_threshold = pos 3;
  probe_requeue = pos 0;
  claimed_requeue = pos 0;
}

abbrev pub machine_reconciler : MachineReconciler
machine_reconciler = record {
  requeue_after_bootstrap = pos 0;
  requeue_after_reset_issued = pos 0;
  requeue_after_node_link = pos 0;
  requeue_after_upgrade = pos 0;
  version_probe_threshold = pos 0;
  upgrade_threshold = pos 2;
}

abbrev pub mixed_gpus : HostGpu
mixed_gpus = record {
  vendor = "nvidia";
  model = "";
  device_id = "";
  memory_per_gpu = pos 0;
  count = pos 2;
  total_memory = pos 0;
  mixed = true;
}

abbrev pub mixed_discovery : DiscoveryResult
mixed_discovery = record {
  talos_version = "v1.9.0";
  arch = "amd64";
  platform = "metal";
  cpu = record { cores = pos 8; packages = pos 1; numa_nodes = pos 1 };
  memory = pos 68719476736;
  disks = [];
  network_interfaces = [];
  external_ip = "";
  internal_ip = "";
  gpus = some mixed_gpus;
  identity = none;
}

abbrev pub disk_of : String → HostDisk
disk_of name = record {
  name = name;
  size = pos 1000;
  kind = "SSD";
  model = "";
  system_disk = true;
  bus_path = "";
}

abbrev pub new_node : Node
new_node = record {
  meta = meta_of "m1" "n1" [];
  provider_id = "";
  taints = record { key = uninitialized_taint; value = ""; effect = "NoSchedule" } ∷ [];
}

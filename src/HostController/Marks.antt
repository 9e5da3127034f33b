-- ===== src/HostController/Marks.antt =====
-- What the methods of pkg/controller/byothost_controller.go assign to a host: populateFromDiscovery and
-- the statements of each method between its calls; and the injectable functions of the reconciler.
use cluster_api_provider_bri.Prelude.{
  ℕ, String, Bool, true, false, Option, none, some, List, if◌then◌else◌,
}
use cluster_api_provider_bri.Prelude.Int.{ℤ, pos, inc_int32, geb_ℤ}
use cluster_api_provider_bri.Go.Action.{M}
use cluster_api_provider_bri.Api.Meta.{Util, mark_true, mark_false, severity_info, severity_warning}
use cluster_api_provider_bri.Api.Host.{
  ByotHost, ByotHostStatus, probing, available, unavailable, HostCpu, HostDisk, HostGpu,
  HostIdentity, host_discovered_condition, host_maintenance_probe_condition,
  mixed_gpu_models_reason,
}
use cluster_api_provider_bri.Endpoints.{Endpoints}
use cluster_api_provider_bri.Discovery.Labels.{apply_discovery_labels}

abbrev pub byot_host_finalizer : String
byot_host_finalizer = "byothost.infrastructure.cluster.x-k8s.io/protection"

-- DiscoveryResult of pkg/controller/discovery.go.
pub record DiscoveryResult : Type 0 where
  pub talos_version : String
  pub arch : String
  pub platform : String
  pub cpu : HostCpu
  pub memory : ℤ
  pub disks : List HostDisk
  pub network_interfaces : List String
  pub external_ip : String
  pub internal_ip : String
  pub gpus : Option HostGpu
  pub identity : Option HostIdentity

-- The injectable functions of ByotHostReconciler.
pub record HostSeams (W : Type 0) : Type 0 where
  pub discover : Endpoints → String → M W DiscoveryResult
  pub probe_maintenance : Endpoints → W → Bool × W

abbrev pub is_mixed : Option HostGpu → Bool
is_mixed none = false
is_mixed (some g) = g.mixed

abbrev pub or_else {ℓ} : {A : Type ℓ} → Option A → Option A → Option A
or_else (some a) b = some a
or_else none b = b

-- `host.Status = …` on the host.
abbrev pub with_status : ByotHost → ByotHostStatus → ByotHost
with_status h s = record h { status = s }

module _ (u : Util) where
  -- populateFromDiscovery; `t` is the time of nowPtr.
  unfoldable pub populate_from_discovery : ℕ → DiscoveryResult → ByotHost → ByotHost
  populate_from_discovery t r h = with_status h (record h.status {
    talos_version = r.talos_version;
    arch = r.arch;
    platform = r.platform;
    identity = or_else r.identity h.status.identity;
    hardware = some (record {
      cpu = r.cpu;
      memory = r.memory;
      disks = r.disks;
      network_interfaces = r.network_interfaces;
      external_ip = r.external_ip;
      internal_ip = r.internal_ip;
      gpus = r.gpus;
    });
    last_probed_at = some t;
    conditions =
        if is_mixed r.gpus
        then mark_false u h.status.conditions host_discovered_condition mixed_gpu_models_reason
            severity_warning
        else mark_true u h.status.conditions host_discovered_condition;
  })

  -- The assignments that reconcileProbing, reconcileUnavailable and reconcileReleasing make after
  -- populateFromDiscovery, the labels included.
  unfoldable pub mark_available : ByotHost → ByotHost
  mark_available h = apply_discovery_labels (
      with_status h (record h.status {
        phase = available;
        maintenance_mode = true;
        probe_failure_count = pos 0;
        conditions = mark_true u h.status.conditions host_maintenance_probe_condition;
      }))

  -- The assignments of reconcileAvailable after a probe that answers.
  unfoldable pub mark_alive : ℕ → ByotHost → ByotHost
  mark_alive t h = apply_discovery_labels (
      with_status h (record h.status {
        maintenance_mode = true;
        last_probed_at = some t;
        probe_failure_count = pos 0;
        conditions = mark_true u h.status.conditions host_maintenance_probe_condition;
      }))

  -- The assignments of recordDiscoveryFailure.
  unfoldable pub mark_discovery_failed : ℕ → ByotHost → ByotHost
  mark_discovery_failed t h = apply_discovery_labels (
      with_status h (record h.status {
        maintenance_mode = false;
        last_probed_at = some t;
        phase = probing;
        conditions =
            mark_false u
              (mark_false u h.status.conditions host_maintenance_probe_condition
                "MaintenanceProbeFailed" severity_warning)
              host_discovered_condition "DiscoveryFailed" severity_warning;
      }))

  -- The assignments of recordProbeFailure.
  unfoldable pub mark_probe_failed : ℤ → ℕ → ByotHost → ByotHost
  mark_probe_failed threshold t h =
      let count = inc_int32 h.status.probe_failure_count in
      let reached = geb_ℤ count threshold in
      apply_discovery_labels (
        with_status h (record h.status {
          maintenance_mode = false;
          last_probed_at = some t;
          probe_failure_count = count;
          phase = if reached then unavailable else h.status.phase;
          conditions =
              if reached
              then mark_false u h.status.conditions host_maintenance_probe_condition
                  "MaintenanceProbeFailed" severity_warning
              else mark_false u h.status.conditions host_maintenance_probe_condition "ProbeFailed"
                  severity_info;
        }))

  -- The host without the protection finalizer.
  abbrev pub without_finalizer : ByotHost → ByotHost
  without_finalizer h = record h {
    meta = record h.meta { finalizers = u.remove_finalizer h.meta.finalizers byot_host_finalizer };
  }

-- The assignments of reconcileUnavailable and reconcileReleasing after a probe that fails.
unfoldable pub mark_probed : ℕ → ByotHost → ByotHost
mark_probed t h =
    apply_discovery_labels (with_status h (record h.status { last_probed_at = some t }))

-- `host.Status.ClaimRef = nil`
unfoldable pub drop_claim : ByotHost → ByotHost
drop_claim h = with_status h (record h.status { claim_ref = none })

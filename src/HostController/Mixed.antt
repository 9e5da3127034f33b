-- ===== src/HostController/Mixed.antt =====
-- A host with GPUs of more than one model (populateFromDiscovery and reconcileProbing of
-- pkg/controller/byothost_controller.go): what its discovery stores.
use cluster_api_provider_bri.Prelude.{true, false, none, ◌≡◌, arith}
use cluster_api_provider_bri.Go.Action.{ok}
use cluster_api_provider_bri.Api.Meta.{Util, UtilLaws}
use cluster_api_provider_bri.Api.Host.{ByotHost, probing, host_discovered_condition}
use cluster_api_provider_bri.Api.Machine.{ByotMachine}
use cluster_api_provider_bri.Claim.{is_candidate, claimed_by_other, host_matches_failure_domain}
use cluster_api_provider_bri.Discovery.Labels.{apply_discovery_labels}
use cluster_api_provider_bri.HostController.{
  HostSeams, HostReconciler, DiscoveryResult, is_mixed, reconcile_host,
}
use cluster_api_provider_bri.HostController.Liveness.{OneHost, loyal, world_of}

-- A machine whose discovery answers.
abbrev pub discovered : DiscoveryResult → HostSeams OneHost
discovered d = record { discover = λ e i w. (ok d, w); probe_maintenance = λ e w. (true, w) }

-- The host that is stored after one reconcile of the stored host.
abbrev pub stored_after : Util → HostReconciler → HostSeams OneHost → OneHost → ByotHost
stored_after u r s w = (world_of (reconcile_host u loyal s r w.stored w.stored w)).stored

-- A Probing host with no claim whose discovery reports GPUs of more than one model is stored with
-- the condition Discovered False, and is a claim candidate all the same: its phase is Available and
-- every machine whose failure domain it matches may claim it.
pub mixed_host-is_candidate :
    (u : Util) (laws : UtilLaws u) (r : HostReconciler) (d : DiscoveryResult) (w : OneHost)
    (m : ByotMachine)
    → is_mixed d.gpus ≡ true
    → w.stored.status.phase ≡ probing
    → w.stored.status.claim_ref ≡ none
    → host_matches_failure_domain w.stored m.spec.failure_domain ≡ true
    → (u.is_true (stored_after u r (discovered d) w).status.conditions host_discovered_condition
        ≡ false)
      × (is_candidate u m (stored_after u r (discovered d) w) ≡ true)
unfolding reconcile_host is_candidate claimed_by_other apply_discovery_labels
mixed_host-is_candidate u laws r d w m mixed ph free fd = grind (arith, laws.is_true-set_condition)

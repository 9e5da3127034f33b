-- ===== src/Tests/Registry.antt =====
-- Runs of the host controller.
use cluster_api_provider_bri.Prelude.{true, false, some, [], ◌≡◌, refl, arith, if◌then◌else◌}
use cluster_api_provider_bri.Prelude.Int.{pos}
use cluster_api_provider_bri.Prelude.Text.{has_prefix}
use cluster_api_provider_bri.Prelude.Dict.{lookup}
use cluster_api_provider_bri.Go.{other}
use cluster_api_provider_bri.Go.Action.{err}
use cluster_api_provider_bri.Api.Host.{ByotHost, releasing, unavailable, host_discovered_condition}
use cluster_api_provider_bri.Client.Journal.{journaled, journal}
use cluster_api_provider_bri.Claim.{is_candidate, host_matches_failure_domain}
use cluster_api_provider_bri.Discovery.Labels.{discovery_labels, discovery_label_prefix}
use cluster_api_provider_bri.Discovery.Labels.Managed.{lookup-discovery_labels, value_in, managed}
use cluster_api_provider_bri.HostController.{
  HostSeams, reconcile_delete, without_finalizer, byot_host_finalizer, failure_threshold,
}
use cluster_api_provider_bri.HostController.Phases.{lifted}
use cluster_api_provider_bri.HostController.Liveness.{OneHost, rounds, phase-rounds}
use cluster_api_provider_bri.HostController.Deletion.{reconcile_delete-writes}
use cluster_api_provider_bri.HostController.Mixed.{
  discovered, stored_after, mixed_host-is_candidate,
}
use cluster_api_provider_bri.Tests.World.{util, util_laws, serving}
use cluster_api_provider_bri.Tests.Objects.{
  free_host, new_host, host_in, host_reconciler, mixed_discovery, other_claim, unresolved_machine,
}

-- A machine in maintenance mode whose discovery fails.
abbrev shy : {W : Type 0} → HostSeams W
shy = record { discover = λ e i w. (err (other "down"), w); probe_maintenance = λ e w. (true, w) }

abbrev released_host : ByotHost
released_host = host_in releasing (some other_claim)

abbrev registry : OneHost
registry = record { stored = free_host; time = 5 }

threshold : failure_threshold host_reconciler ≡ pos 3
unfolding failure_threshold
threshold = refl

phase-rounds_example :
    ((rounds util host_reconciler 3 registry).stored.status.phase ≡ unavailable)
    × ((rounds util host_reconciler 3 registry).stored.status.probe_failure_count ≡ pos 3)
phase-rounds_example =
    phase-rounds util host_reconciler 3 3 registry threshold (omega arith) (omega arith) refl refl

reconcile_delete-writes_example :
    (journal (
        reconcile_delete util
          (journaled (serving free_host))
          (lifted shy)
          host_reconciler
          released_host
          (tt, []))
      ≡ [])
    × (util.contains_finalizer
          (without_finalizer util released_host).meta.finalizers
          byot_host_finalizer
        ≡ false)
reconcile_delete-writes_example =
    reconcile_delete-writes util util_laws (serving free_host) shy host_reconciler released_host tt

abbrev new_registry : OneHost
new_registry = record { stored = new_host; time = 5 }

new_host-matches :
    host_matches_failure_domain new_host unresolved_machine.spec.failure_domain ≡ true
unfolding host_matches_failure_domain
new_host-matches = refl

mixed_host-is_candidate_example :
    (util.is_true
        (stored_after util host_reconciler
          (discovered mixed_discovery)
          new_registry).status.conditions
        host_discovered_condition
      ≡ false)
    × (is_candidate util unresolved_machine
          (stored_after util host_reconciler (discovered mixed_discovery) new_registry)
        ≡ true)
mixed_host-is_candidate_example =
    mixed_host-is_candidate util util_laws host_reconciler mixed_discovery new_registry
      unresolved_machine refl refl refl new_host-matches

lookup-discovery_labels_example : lookup "byot.io/arch" (discovery_labels free_host) ≡ (
    if has_prefix "byot.io/arch" discovery_label_prefix
    then value_in (managed free_host) "byot.io/arch"
    else lookup "byot.io/arch" free_host.meta.labels)
lookup-discovery_labels_example = lookup-discovery_labels free_host "byot.io/arch"

-- ===== src/Tests/Cycle.antt =====
-- A host that is released, resets and misses two probes.
use cluster_api_provider_bri.Prelude.{true, some, none, [], ◌∷◌, ◌≡◌, refl}
use cluster_api_provider_bri.Go.{other}
use cluster_api_provider_bri.Api.Meta.{ObjectKey}
use cluster_api_provider_bri.Api.Host.{available, claimed}
use cluster_api_provider_bri.Claim.{is_candidate, host_matches_failure_domain}
use cluster_api_provider_bri.Release.Attempts.{Answers}
use cluster_api_provider_bri.Registry.Cycle.{Fleet, returned, release_host-returns}
use cluster_api_provider_bri.Tests.World.{util, util_laws}
use cluster_api_provider_bri.Tests.Objects.{
  host_in, host_reconciler, holding_machine, mixed_discovery, other_claim, unresolved_machine,
}

-- A machine that takes the second credential only.
abbrev picky : Answers
picky none = none
picky (some cfg) = some (other "refused")

abbrev fleet : Fleet
fleet = record { stored = host_in claimed (some other_claim); time = 0; away = 0 }

abbrev host_key : ObjectKey
host_key = record { namespace = "default"; name = "host-a" }

abbrev after_return : Fleet
after_return =
    returned util host_reconciler mixed_discovery 2 (some "cfg" ∷ none ∷ []) picky
      (holding_machine []) host_key 3 fleet

release_host-returns_example :
    (after_return.stored.status.phase ≡ available)
    × (after_return.stored.status.claim_ref ≡ none)
    × (is_candidate util unresolved_machine after_return.stored ≡ true)
unfolding host_matches_failure_domain
release_host-returns_example =
    release_host-returns util util_laws host_reconciler mixed_discovery host_key 2 3
      (some "cfg" ∷ none ∷ []) picky (holding_machine []) unresolved_machine fleet refl refl refl

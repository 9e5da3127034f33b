-- ===== src/Tests/Claims.antt =====
-- Runs of claims and releases.
use mathlib.Core.List.{Memᴰ}
use cluster_api_provider_bri.Prelude.{
  inl, true, false, none, some, [], ◌∷◌, ◌≡◌, ◌↔◌, refl, ne_of_eq-false, All,
}
use cluster_api_provider_bri.Prelude.Int.{pos}
use cluster_api_provider_bri.Go.{other, no_requeue, after}
use cluster_api_provider_bri.Go.Action.{ok, err}
use cluster_api_provider_bri.Api.Host.{claimed, unavailable}
use cluster_api_provider_bri.Client.Journal.{journaled, journal}
use cluster_api_provider_bri.HostController.{byot_host_finalizer}
use cluster_api_provider_bri.HostController.Liveness.{OneHost, loyal, world_of}
use cluster_api_provider_bri.Claim.{
  is_candidate, claimed_by_other, take_claim, resolve, pick, filter_claim_candidates,
}
use cluster_api_provider_bri.Claim.Acquire.{claim_cas, claim_host}
use cluster_api_provider_bri.Claim.Candidates.{
  IsChoice, IsClaimable, pick-IsChoice, mem-filter_claim_candidates,
}
use cluster_api_provider_bri.Claim.Race.{contended, IsOwnUpdate, claim_cas-IsOwnUpdate}
use cluster_api_provider_bri.Claim.Orphan.{orphaned_claim-is_stuck}
use cluster_api_provider_bri.Claim.Resolved.{accepting, claim_host-resolves}
use cluster_api_provider_bri.Release.{ReleaseSeams, release_host, release_found}
use cluster_api_provider_bri.Release.Attempts.{
  beside, Answers, release_writes, release_found-writes,
}
use cluster_api_provider_bri.HostController.Phases.{◌⟶◌, HostStep}
use cluster_api_provider_bri.Registry.{patch, claim, Writes, done, then_write}
use cluster_api_provider_bri.Tests.World.{util, util_laws, serving, with_cluster}
use cluster_api_provider_bri.Tests.Objects.{
  free_host, host_in, other_claim, unresolved_machine, holding_machine, talos_secret,
  cluster_without_control_plane, worker,
}

pick-IsChoice_example :
    IsChoice util unresolved_machine (free_host ∷ host_in claimed none ∷ []) (
      pick
        (filter_claim_candidates util (free_host ∷ host_in claimed none ∷ []) unresolved_machine))
pick-IsChoice_example =
    pick-IsChoice util unresolved_machine (free_host ∷ host_in claimed none ∷ [])

mem-filter_claim_candidates_example :
    Memᴰ free_host (filter_claim_candidates util (free_host ∷ []) unresolved_machine)
    ↔ (Memᴰ free_host (free_host ∷ []) × IsClaimable util unresolved_machine free_host)
mem-filter_claim_candidates_example =
    mem-filter_claim_candidates util unresolved_machine free_host (free_host ∷ [])

-- Another machine claims the host between the read and the update.
claim_cas-IsOwnUpdate_example : All (IsOwnUpdate util unresolved_machine) (
    (claim_cas util contended free_host unresolved_machine (record {
      stored = free_host;
      version = 3;
      held = 0;
      others = none ∷ some (host_in claimed (some other_claim)) ∷ [];
      replaced = [];
    })).1.replaced)
claim_cas-IsOwnUpdate_example =
    claim_cas-IsOwnUpdate util unresolved_machine free_host free_host 3 0
      (none ∷ some (host_in claimed (some other_claim)) ∷ [])

free_host-is_candidate : is_candidate util unresolved_machine free_host ≡ true
unfolding is_candidate claimed_by_other
free_host-is_candidate = refl

abbrev registry : OneHost
registry = record { stored = free_host; time = 5 }

claim_host-resolves_example :
    let mc = accepting (with_cluster talos_secret cluster_without_control_plane worker) in
    let after_claim =
      world_of (claim_host util loyal mc (pos 10) unresolved_machine unresolved_machine registry) in
    (claim_host util loyal mc (pos 10) unresolved_machine unresolved_machine registry
      ≡ (ok (no_requeue, false, resolve free_host unresolved_machine), after_claim))
    × (after_claim.stored.status ≡ (take_claim unresolved_machine free_host).status)
    × (util.contains_finalizer after_claim.stored.meta.finalizers byot_host_finalizer ≡ true)
    × (claim_host util loyal mc
          (pos 10)
          unresolved_machine
          (resolve free_host unresolved_machine)
          after_claim
        ≡ (ok (no_requeue, false, resolve free_host unresolved_machine), after_claim))
claim_host-resolves_example =
    claim_host-resolves util util_laws
      (with_cluster talos_secret cluster_without_control_plane worker) (pos 10) unresolved_machine
      unresolved_machine "host-a" registry refl (ne_of_eq-false "host-a" "" refl) refl
      free_host-is_candidate

-- A machine that cannot be reached.
abbrev beside_nothing : ReleaseSeams (Unit {0})
beside_nothing = record {
  probe_maintenance = λ e w. (false, w);
  reset_credential_candidates = λ m w. (ok [], w);
  reset_machine = λ e c w. (err (other "unreachable"), w);
}

-- The reset is accepted only without credentials.
abbrev lenient : Answers
lenient none = none
lenient (some cfg) = some (other "unauthorized")

release_found-writes_example :
    journal (
      release_found
        (journaled (serving free_host))
        (beside false (some "cfg" ∷ none ∷ []) lenient)
        (holding_machine [])
        (host_in claimed (some other_claim))
        (tt, []))
    ≡ release_writes false (some "cfg" ∷ none ∷ []) lenient (host_in claimed (some other_claim))
release_found-writes_example =
    release_found-writes (serving free_host) false (some "cfg" ∷ none ∷ []) lenient
      (holding_machine []) (host_in claimed (some other_claim)) tt

orphaned_claim-is_stuck_example :
    (is_candidate util unresolved_machine (take_claim unresolved_machine free_host) ≡ false)
    × (claim_host util
          (serving (take_claim unresolved_machine free_host))
          (with_cluster talos_secret cluster_without_control_plane worker)
          (pos 10)
          unresolved_machine
          unresolved_machine
          tt
        ≡ (ok (after (pos 10), true, unresolved_machine), tt))
    × (release_host
          (serving (take_claim unresolved_machine free_host))
          (beside_nothing)
          unresolved_machine
          tt
        ≡ (ok tt, tt))
orphaned_claim-is_stuck_example =
    orphaned_claim-is_stuck util (serving (take_claim unresolved_machine free_host))
      (with_cluster talos_secret cluster_without_control_plane worker) beside_nothing (pos 10)
      unresolved_machine unresolved_machine free_host "host-a" tt refl refl refl

lost_host-HostStep : HostStep util free_host (host_in unavailable none)
lost_host-HostStep = record {
  follows = ◌⟶◌.lose;
  spec_kept = refl;
  claim_kept = inl refl;
  alive = λ n e. absurd (n refl);
}

free_host-unclaimed : claimed_by_other (host_in unavailable none).status.claim_ref "u1" ≡ false
unfolding claimed_by_other
free_host-unclaimed = refl

-- The host controller gives the host up, a machine claims it all the same.
abbrev two_writes :
    Writes util free_host (take_claim (holding_machine []) (host_in unavailable none))
two_writes =
    then_write (then_write done (patch lost_host-HostStep))
      (claim (holding_machine []) free_host-unclaimed)

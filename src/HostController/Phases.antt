-- ===== src/HostController/Phases.antt =====
-- The phase machine of a host (reconcileHost of pkg/controller/byothost_controller.go): what one
-- reconcile may write, whatever the probes, the discovery and the API server answer.
use cluster_api_provider_bri.Prelude.{String, true, List, [], ◌∷◌, none, ◌≡◌, ◌≢◌, ◌⊎◌}
use cluster_api_provider_bri.Api.Meta.{Util}
use cluster_api_provider_bri.Api.Host.{
  ByotHost, HostPhase, unset, probing, available, releasing, unavailable, unknown_phase,
  host_maintenance_probe_condition,
}
use cluster_api_provider_bri.Client.Journal.{
  HostWrite, patched, updated, status_updated, finalizer_ensured, Logged, silent, silent_answer,
}
use cluster_api_provider_bri.HostController.{HostSeams}

-- The diagram of the phases: from a phase, by one reconcile of the ByotHost, to a phase.
infix 40 ◌⟶◌
pub data ◌⟶◌ : HostPhase → HostPhase → Type 0 where
  discover_new : unset ⟶ available
  fail_new : unset ⟶ probing
  discover : probing ⟶ available
  retry : probing ⟶ probing
  discover_unknown : {p : String} → unknown_phase p ⟶ available
  fail_unknown : {p : String} → unknown_phase p ⟶ probing
  stay : available ⟶ available
  lose : available ⟶ unavailable
  wait : unavailable ⟶ unavailable
  recover : unavailable ⟶ available
  lose_discovery : unavailable ⟶ probing
  reset : releasing ⟶ releasing
  return : releasing ⟶ available
  fail_return : releasing ⟶ probing

ruleset edges = (
  discover_new, fail_new, discover, retry, discover_unknown, fail_unknown, stay, lose, wait,
  recover, lose_discovery, reset, return, fail_return,
)

-- What may change between the host `h` that is reconciled and the host `g` that is stored.
pub record HostStep (u : Util) (h g : ByotHost) : Type 0 where
  pub follows : h.status.phase ⟶ g.status.phase
  pub spec_kept : g.spec ≡ h.spec
  pub claim_kept :
      (g.status.claim_ref ≡ h.status.claim_ref)
      ⊎ ((h.status.phase ≡ releasing) × (g.status.phase ≡ available) × (g.status.claim_ref ≡ none))
  -- a host that becomes available answered in maintenance mode
  pub alive :
      h.status.phase ≢ available
      → g.status.phase ≡ available
      → u.is_true g.status.conditions host_maintenance_probe_condition ≡ true

-- A write of a reconcile is the patch of a step, and nothing else.
abbrev pub IsStepOf : Util → ByotHost → HostWrite → Type 0
IsStepOf u h (patched b g) = HostStep u h g
IsStepOf u h (updated g) = ⊥
IsStepOf u h (status_updated g) = ⊥
IsStepOf u h (finalizer_ensured g) = ⊥

-- At most one write, and that one a step.
abbrev pub AtMostOneStep : Util → ByotHost → List HostWrite → Type 0
AtMostOneStep u h [] = Unit
AtMostOneStep u h (x ∷ []) = IsStepOf u h x
AtMostOneStep u h (x ∷ y ∷ l) = ⊥

abbrev pub lifted : {W : Type 0} → HostSeams W → HostSeams (Logged W)
lifted s = record {
  discover = λ e i. silent (s.discover e i);
  probe_maintenance = λ e. silent_answer (s.probe_maintenance e);
}

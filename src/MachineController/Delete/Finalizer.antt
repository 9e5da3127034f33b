-- ===== src/MachineController/Delete/Finalizer.antt =====
-- When a ByotMachine loses its finalizer (reconcileDelete of
-- pkg/controller/byotmachine_controller.go).
use cluster_api_provider_bri.Prelude.{true, none, List, [], ◌∷◌, ◌≡◌}
use cluster_api_provider_bri.Go.Action.{Result, ok, err}
use cluster_api_provider_bri.Api.Host.{ByotHost, available, releasing}
use cluster_api_provider_bri.Endpoints.{Endpoints}
use cluster_api_provider_bri.MachineController.Trace.{
  Event, updated_machine, wrote_host, reset_with, in_maintenance, Traced,
}

-- A host is stored without its claim, after the event that allows it.
abbrev pub IsFreeing : ByotHost → List Event → Type 0
IsFreeing g [] = ⊥
IsFreeing g (in_maintenance b ∷ t) =
    (b ≡ true) × (g.status.claim_ref ≡ none) × (g.status.phase ≡ available)
IsFreeing g (reset_with c ∷ t) = (g.status.claim_ref ≡ none) × (g.status.phase ≡ releasing)
IsFreeing g (x ∷ t) = ⊥

abbrev pub IsFreed : List Event → Type 0
IsFreed [] = ⊥
IsFreed (wrote_host h ∷ t) = IsFreeing h t
IsFreed (x ∷ t) = ⊥

-- A trace of a deletion, the last event first: only probes and resets, then at most the write that
-- frees the host, then at most the update of the machine.
abbrev pub IsOrderly : List Event → Type 0
IsOrderly [] = Unit
IsOrderly (updated_machine g ∷ t) = IsFreed t
IsOrderly (wrote_host h ∷ t) = IsFreeing h t
IsOrderly (in_maintenance b ∷ t) = IsOrderly t
IsOrderly (reset_with c ∷ t) = IsOrderly t
IsOrderly (x ∷ t) = ⊥

abbrev EndsInReset : List Event → Type 0
EndsInReset [] = ⊥
EndsInReset (reset_with c ∷ t) = IsOrderly t
EndsInReset (x ∷ t) = ⊥

-- A successful reset ends in one; a failed one leaves an orderly trace.
abbrev IsAttempt : {W : Type 0} → Result (Unit {0}) × Traced W → Type 0
IsAttempt (ok a, (w, t)) = EndsInReset t
IsAttempt (err e, (w, t)) = IsOrderly t

-- A successful release ends in the host that is freed.
abbrev IsEnd : {W A : Type 0} → Result A × Traced W → Type 0
IsEnd (ok a, (w, t)) = IsFreed t
IsEnd (err e, (w, t)) = IsOrderly t

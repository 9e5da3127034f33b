-- ===== src/MachineController/Adopt/Failure.antt =====
-- A failed apply (applyAndMarkAdopted and recordApplyFailure of
-- pkg/controller/byotmachine_controller.go).
use cluster_api_provider_bri.Prelude.{List, [], ◌∷◌, ◌≡◌}
use cluster_api_provider_bri.Go.Action.{Result, ok, err}
use cluster_api_provider_bri.Api.Machine.{ByotMachine}
use cluster_api_provider_bri.Api.Cluster.{Machine}
use cluster_api_provider_bri.Endpoints.{Endpoints}
use cluster_api_provider_bri.MachineController.Trace.{Event, patched_machine, applied, Traced}

-- The events of a failed apply, the last one first: the apply call unless the configuration could
-- not be prepared, then the patch of the machine as failed.
abbrev pub IsFailure : ByotMachine → List Event → Type 0
IsFailure failed [] = ⊥
IsFailure failed (patched_machine g ∷ []) = g ≡ failed
IsFailure failed (patched_machine g ∷ applied c cfg ∷ []) = g ≡ failed
IsFailure failed (x ∷ t) = ⊥

abbrev pub IsFailedRun : {W A : Type 0} → ByotMachine → Result A × Traced W → Type 0
IsFailedRun failed (ok a, (w, t)) = ⊥
IsFailedRun failed (err e, (w, t)) = IsFailure failed t

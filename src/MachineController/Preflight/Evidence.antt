-- ===== src/MachineController/Preflight/Evidence.antt =====
-- What the credentials of an apply rest on (resolveApplyAuth, preflightJoin and
-- preflightForeignMachine of pkg/controller/byotmachine_controller.go).
use cluster_api_provider_bri.Prelude.{
  String, Bool, true, false, Option, none, some, List, [], ◌∷◌, ◌≡◌,
}
use cluster_api_provider_bri.Go.Action.{Result, ok, err}
use cluster_api_provider_bri.Api.Cluster.{Machine}
use cluster_api_provider_bri.MachineController.Seams.{Awaited, wait, have}
use cluster_api_provider_bri.MachineController.Preflight.{ApplyAuth}
use cluster_api_provider_bri.MachineController.Trace.{Event, in_maintenance, answered_to, Traced}

-- The probes that led to the credentials, the last one first: for the maintenance client, the
-- machine is in maintenance mode; for a talosconfig of the cluster, it is not, and answers to it;
-- for another talosconfig, it is not in maintenance mode, and answers neither to the cluster's
-- nor to that one.
abbrev pub IsEvidence : Option String → Bool → List Event → Type 0
IsEvidence none bundle t = (bundle ≡ false) × (t ≡ in_maintenance true ∷ [])
IsEvidence (some c) true t = t ≡ answered_to c true ∷ in_maintenance false ∷ []
IsEvidence (some c) false t =
    (k : String) × (t ≡ answered_to c false ∷ answered_to k false ∷ in_maintenance false ∷ [])

abbrev pub RestsOnEvidence : {W : Type 0} → Result (Awaited ApplyAuth) × Traced W → Type 0
RestsOnEvidence (ok (have (cfg, bundle, m)), (w, t)) = IsEvidence cfg bundle t
RestsOnEvidence (ok (wait res), (w, t)) = Unit
RestsOnEvidence (err e, (w, t)) = Unit

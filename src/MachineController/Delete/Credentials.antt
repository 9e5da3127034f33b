-- ===== src/MachineController/Delete/Credentials.antt =====
-- The credentials of a reset and their order (resetCredentialCandidates, attemptReset and
-- resetAdoptedHostImpl of pkg/controller/byotmachine_controller.go).
use Prim.Native.String.{◌++◌}
use mathlib.Core.List.{◌++◌ as append}
use cluster_api_provider_bri.Prelude.{
  String, Option, none, some, List, [], ◌∷◌, ◌≡◌, refl, ap, arith, ◌==◌, if◌then◌else◌,
}
use cluster_api_provider_bri.Prelude.Dict.{lookup}
use cluster_api_provider_bri.Go.{Err, not_found}
use cluster_api_provider_bri.Go.Action.{Result, ok, err}
use cluster_api_provider_bri.Api.Meta.{ObjectKey}
use cluster_api_provider_bri.Api.Machine.{ByotMachine}
use cluster_api_provider_bri.Api.Cluster.{Secret}
use cluster_api_provider_bri.Client.{MachineClient}
use cluster_api_provider_bri.Claim.{value}
use cluster_api_provider_bri.Endpoints.{Endpoints, machine_endpoints}
use cluster_api_provider_bri.Release.Attempts.{
  Answers, answer, some_accepted, last_error, tried, outcome, attempt_reset-recorded,
}
use cluster_api_provider_bri.MachineController.Seams.{MachineSeams}
use cluster_api_provider_bri.MachineController.Delete.{
  cluster_name_label, reset_credential_candidates, reset_adopted_host_impl, release_seams,
}

-- The talosconfig of each secret that the API server has; a secret may lack it or have it empty.
abbrev pub Stored : Type 0
Stored = ObjectKey → Option Secret

abbrev pub read : Option Secret → Result Secret
read none = err not_found
read (some s) = ok s

abbrev not_blank : Option String → List (Option String)
not_blank none = []
not_blank (some cfg) = if cfg == "" then [] else some cfg ∷ []

abbrev talos_config_of : Option Secret → List (Option String)
talos_config_of none = []
talos_config_of (some s) = not_blank (lookup "talosconfig" s.entries)

abbrev config_in : Stored → String → Option String → List (Option String)
config_in stored namespace none = []
config_in stored namespace (some name) =
    talos_config_of (stored (record { namespace = namespace; name = name }))

-- The talosconfig that the bootstrap provider generates for a cluster; a ByotMachine without the
-- label of a cluster has none.
abbrev config_of_cluster : Stored → String → String → List (Option String)
config_of_cluster stored namespace cluster =
    if cluster == "" then [] else config_in stored namespace (some (cluster ++ "-talosconfig"))

-- The credentials for a reset: the referenced talosconfig, that of the cluster, and none at all.
abbrev pub credentials : Stored → ByotMachine → List (Option String)
credentials stored m = append (config_in stored m.meta.namespace m.spec.talos_config_secret_ref) (
    append
      (config_of_cluster stored m.meta.namespace (value (lookup cluster_name_label m.meta.labels)))
      (none ∷ []))

module _ {W : Type 0} (mc : MachineClient W) (stored : Stored)
    (reads : (k : ObjectKey) (w : W) → mc.get_secret k w ≡ (read (stored k), w)) where
  reset_credential_candidates-credentials :
      (m : ByotMachine) (w : W)
      → reset_credential_candidates mc m w ≡ (ok (credentials stored m), w)
  unfolding reset_credential_candidates
  reset_credential_candidates-credentials m w = grind (arith, reads)

last_error-append :
    (f : Answers) (e : Option Err) (l k : List (Option String))
    → ((last : Option Err) → last_error f last k ≡ e)
    → (last : Option Err) → last_error f last (append l k) ≡ e
last_error-append f e [] k ends last = ends last
last_error-append f e (c ∷ l) k ends last = last_error-append f e l k ends (f c)

last_error-credentials :
    (f : Answers) (stored : Stored) (m : ByotMachine)
    → last_error f none (credentials stored m) ≡ f none
last_error-credentials f stored m =
    let of_cluster =
      config_of_cluster stored m.meta.namespace (value (lookup cluster_name_label m.meta.labels)) in
    let referenced = config_in stored m.meta.namespace m.spec.talos_config_secret_ref in
    last_error-append f (f none) referenced (append of_cluster (none ∷ []))
      (last_error-append f (f none) of_cluster (none ∷ []) (λ last. refl)) none

-- If the API server answers every read of a secret with what it stores, NotFound where there is none,
-- and the machine answers a reset with given credentials always alike, then resetAdoptedHostImpl
-- tries the referenced talosconfig, that of the cluster and at last no credentials, the first two
-- where they are stored and not empty, in this order up to the first that the machine accepts, and
-- no other; it succeeds exactly if one is accepted, and otherwise fails with the error of the reset
-- without credentials.
pub reset_adopted_host_impl-tried :
    (mc : MachineClient (List (Option String))) (s : MachineSeams (List (Option String)))
    (stored : Stored) (f : Answers) (m : ByotMachine) (w : List (Option String))
    → ((k : ObjectKey) (x : List (Option String)) → mc.get_secret k x ≡ (read (stored k), x))
    → ((e : Endpoints) (c : Option String) (x : List (Option String))
        → s.reset_machine e c x ≡ (answer (f c), c ∷ x))
    → reset_adopted_host_impl mc s m w ≡ (
      outcome (some_accepted f (credentials stored m)) (f none),
      tried f (credentials stored m) w,
    )
unfolding reset_adopted_host_impl
reset_adopted_host_impl-tried mc s stored f m w reads answers =
    let l = credentials stored m in
    rw
      (
        reset_credential_candidates-credentials mc stored reads m w,
        attempt_reset-recorded (release_seams mc s) f answers l (machine_endpoints m) w,
      )
      (ap (λ e. (outcome (some_accepted f l) e, tried f l w)) (last_error-credentials f stored m))

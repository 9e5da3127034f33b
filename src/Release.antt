-- ===== src/Release.antt =====
-- Releasing a host (releaseHost of pkg/controller/claim.go and attemptReset of
-- pkg/controller/byotmachine_controller.go).
pub mod Attempts
use cluster_api_provider_bri.Prelude.{
  ℕ, String, Bool, true, false, not, ◌&&◌, ◌||◌, Option, none, some, List, [], ◌∷◌, ◌==◌, ◌!=◌,
  if◌then◌else◌,
}
use cluster_api_provider_bri.Prelude.Int.{ℤ}
use cluster_api_provider_bri.Prelude.Order.{str_lt}
use cluster_api_provider_bri.Go.{
  CtrlResult, no_requeue, requeue_now, after, Err, no_host_available, is_no_host_available,
  is_not_found, is_conflict, no_reset_credentials, wrap,
}
use cluster_api_provider_bri.Go.Action.{M, ok, err, handle, pure, raise, wrap_err, ask, ◌>>=◌, ◌>>◌}
use cluster_api_provider_bri.Api.Meta.{ObjectKey, ObjectMeta, Util, key_of}
use cluster_api_provider_bri.Api.Host.{
  ByotHost, ByotHostStatus, HostClaimRef, available, claimed, releasing, is_available,
  host_maintenance_probe_condition,
}
use cluster_api_provider_bri.Api.Machine.{ByotMachine, ByotMachineStatus}
use cluster_api_provider_bri.Endpoints.{
  Endpoints, host_internal_ip, host_endpoints, machine_endpoints,
}
use cluster_api_provider_bri.Client.{HostClient, MachineClient}
use cluster_api_provider_bri.HostController.{byot_host_finalizer, with_status}
use cluster_api_provider_bri.Claim.{
  claimed_by_other, lost_claim, is_blank, value, host_matches_failure_domain, claim_ref_of,
  take_claim, resolve, unresolve, resolved_key, smaller, first_by_name, pick, host_claimable,
  is_candidate, filter_claim_candidates, protected,
}

-- The functions that releaseHost calls on the machine: the maintenance probe, the credentials that
-- resetCredentialCandidates finds (a nil talosconfig is `none`) and resetMachine.
pub record ReleaseSeams (W : Type 0) : Type 0 where
  pub probe_maintenance : Endpoints → W → Bool × W
  pub reset_credential_candidates : ByotMachine → M W (List (Option String))
  pub reset_machine : Endpoints → Option String → M W (Unit {0})

-- The host as releaseHost stores it when the machine is in maintenance already.
unfoldable pub release_clean : ByotHost → ByotHost
release_clean h = with_status h (record h.status { phase = available; claim_ref = none })

-- The host as releaseHost stores it after the reset is issued.
unfoldable pub release_reset : ByotHost → ByotHost
release_reset h = with_status h (record h.status { phase = releasing; claim_ref = none })

-- The error of attemptReset for the last error of the loop.
abbrev pub reset_error : Option Err → Err
reset_error none = wrap "no credential candidates" no_reset_credentials
reset_error (some e) = wrap "failed to reset machine with any available credentials" e

module _ {W : Type 0} (s : ReleaseSeams W) where
  -- The loop of attemptReset; `last` is lastErr.
  unfoldable pub attempt_reset_from : Option Err → List (Option String) → Endpoints → M W (Unit {0})
  attempt_reset_from last [] endpoints w = raise (reset_error last) w
  attempt_reset_from last (c ∷ candidates) endpoints w =
      handle (s.reset_machine endpoints c) (λ e. attempt_reset_from (some e) candidates endpoints)
        pure w

  unfoldable pub attempt_reset : List (Option String) → Endpoints → M W (Unit {0})
  unfolding attempt_reset_from
  attempt_reset candidates endpoints = attempt_reset_from none candidates endpoints

module _ {W : Type 0} (c : HostClient W) (s : ReleaseSeams W) where
  unfoldable pub store_release : ByotHost → M W (Unit {0})
  store_release h = do
    wrap_err "failed to update ByotHost status on release" (c.update_host_status h)
    pure tt

  -- releaseHost on the host that it fetched.
  unfoldable pub release_found : ByotMachine → ByotHost → M W (Unit {0})
  release_found m h = do
    in_maintenance ← ask (s.probe_maintenance (host_endpoints h))
    if in_maintenance then store_release (release_clean h) else (do
      candidates ← s.reset_credential_candidates m
      wrap_err "failed to reset host" (attempt_reset s candidates (machine_endpoints m))
      store_release (release_reset h))

  unfoldable pub release_host : ByotMachine → M W (Unit {0})
  release_host m =
      if m.status.resolved_host == ""
      then pure tt
      else handle (c.get_host (resolved_key m))
          (λ e. if is_not_found e then pure tt else raise (wrap "failed to get ByotHost" e))
          (release_found m)

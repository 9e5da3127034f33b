-- ===== src/Registry.antt =====
-- The registry as both controllers change it, one stored write at a time: the patches of the host
-- controller (pkg/controller/byothost_controller.go), and the claims and releases of ByotMachines
-- (pkg/controller/claim.go).
pub mod Refines
pub mod Cycle
use cluster_api_provider_bri.Prelude.{String, Bool, true, false, Option, none, some, ◌≡◌}
use cluster_api_provider_bri.Api.Meta.{Util}
use cluster_api_provider_bri.Api.Host.{
  ByotHost, HostPhase, HostClaimRef, unset, probing, available, claimed, releasing, unavailable,
  unknown_phase,
}
use cluster_api_provider_bri.Api.Machine.{ByotMachine}
use cluster_api_provider_bri.HostController.{with_status, without_finalizer}
use cluster_api_provider_bri.HostController.Phases.{HostStep}
use cluster_api_provider_bri.Claim.{claimed_by_other, take_claim, protected}
use cluster_api_provider_bri.Release.{release_clean, release_reset}

abbrev pub is_claimed : HostPhase → Bool
is_claimed claimed = true
is_claimed _ = false

-- The ByotMachine, by its UID, that has the claim.
abbrev pub owner : Option HostClaimRef → Option String
owner none = none
owner (some ref) = some ref.uid

abbrev pub has_owner : Option HostClaimRef → Bool
has_owner none = false
has_owner (some ref) = true

-- One write: what the host controller patches; a claim of a host that no other machine has claimed,
-- in whatever phase it is by then; the finalizer, put on and, once there is no claim, taken off; the
-- two releases, by whichever ByotMachine, since releaseHost does not read the claim; and the mirrored
-- Talos version.
pub data Write (u : Util) : ByotHost → ByotHost → Type 0 where
  patch : {h g : ByotHost} → HostStep u h g → Write u h g
  claim :
      {h : ByotHost} (m : ByotMachine)
      → claimed_by_other h.status.claim_ref m.meta.uid ≡ false
      → Write u h (take_claim m h)
  protect : {h : ByotHost} → Write u h (protected u h)
  unprotect : {h : ByotHost} → h.status.claim_ref ≡ none → Write u h (without_finalizer u h)
  mirror :
      {h : ByotHost} (version : String)
      → Write u h (with_status h (record h.status { talos_version = version }))
  release : {h : ByotHost} → Write u h (release_clean h)
  release_by_reset : {h : ByotHost} → Write u h (release_reset h)

-- Any number of writes.
pub data Writes (u : Util) : ByotHost → ByotHost → Type 0 where
  done : {h : ByotHost} → Writes u h h
  then_write : {h g k : ByotHost} → Writes u h g → Write u g k → Writes u h k

-- A host is in the phase Claimed exactly if a claim is recorded.
abbrev pub IsConsistent : ByotHost → Type 0
IsConsistent h = is_claimed h.status.phase ≡ has_owner h.status.claim_ref

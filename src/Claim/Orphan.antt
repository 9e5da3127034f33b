-- ===== src/Claim/Orphan.antt =====
-- A claim whose record on the ByotMachine was lost (claimHost, resolveHostRef, verifyExistingClaim
-- and releaseHost of pkg/controller): claimCAS has stored the claim, and the patch of the
-- ByotMachine that was to store the resolved host failed.
use cluster_api_provider_bri.Prelude.{String, true, false, some, ◌≡◌, arith, eq_iff}
use cluster_api_provider_bri.Prelude.Int.{ℤ}
use cluster_api_provider_bri.Go.{after}
use cluster_api_provider_bri.Go.Action.{ok}
use cluster_api_provider_bri.Api.Meta.{Util}
use cluster_api_provider_bri.Api.Host.{ByotHost}
use cluster_api_provider_bri.Api.Machine.{ByotMachine}
use cluster_api_provider_bri.Client.{HostClient, MachineClient}
use cluster_api_provider_bri.Claim.{take_claim, is_candidate}
use cluster_api_provider_bri.Claim.Acquire.{claim_host}
use cluster_api_provider_bri.Release.{ReleaseSeams, release_host}

-- A host that holds the claim of a ByotMachine which records no resolved host stays as it is: it is
-- no claim candidate of that ByotMachine; if its hostRef names the host and the API server answers
-- with it, claimHost only asks to be called again, with the ByotMachine unchanged and no write; and
-- the release of the ByotMachine succeeds without touching anything, so the claim stays recorded
-- after the ByotMachine is gone.
pub orphaned_claim-is_stuck :
    {W : Type 0} (u : Util) (c : HostClient W) (mc : MachineClient W) (s : ReleaseSeams W)
    (wait : ℤ) (helper m : ByotMachine) (h : ByotHost) (name : String) (w : W)
    → m.status.resolved_host ≡ ""
    → m.spec.host_ref ≡ some name
    → c.get_host (record { namespace = m.meta.namespace; name = name }) w ≡ (ok (take_claim m h), w)
    → (is_candidate u m (take_claim m h) ≡ false)
      × (claim_host u c mc wait helper m w ≡ (ok (after wait, true, m), w))
      × (release_host c s m w ≡ (ok tt, w))
unfolding is_candidate claim_host release_host take_claim
orphaned_claim-is_stuck u c mc s wait helper m h name w unresolved named answer =
    grind (arith, eq_iff m.status.resolved_host "", eq_iff m.meta.uid m.meta.uid)

-- ===== src/Claim/Resolved.antt =====
-- A claim, its record, and its end (claimHost, verifyExistingClaim and releaseHost of
-- pkg/controller/claim.go) on an API server that keeps one host and accepts every write.
use cluster_api_provider_bri.Prelude.{String, true, false, some, ◌≡◌, ◌≢◌, arith, eq_refl, eq_iff}
use cluster_api_provider_bri.Prelude.Int.{ℤ}
use cluster_api_provider_bri.Go.{no_requeue}
use cluster_api_provider_bri.Go.Action.{ok}
use cluster_api_provider_bri.Api.Meta.{Util, UtilLaws}
use cluster_api_provider_bri.Api.Machine.{ByotMachine}
use cluster_api_provider_bri.Client.{MachineClient}
use cluster_api_provider_bri.HostController.{byot_host_finalizer}
use cluster_api_provider_bri.HostController.Liveness.{OneHost, loyal, world_of}
use cluster_api_provider_bri.Claim.{is_candidate, take_claim, resolve}
use cluster_api_provider_bri.Claim.Acquire.{claim_host}

-- A client of ByotMachines that accepts every patch.
abbrev pub accepting : MachineClient OneHost → MachineClient OneHost
accepting mc = record mc { patch_machine = λ b m w. (ok tt, w) }

-- A machine without a resolved host that names a claimable host claims it: the stored host has the
-- machine's claim, the phase Claimed and the finalizer, and the machine the host's name and
-- addresses. On the next reconcile the machine keeps that claim and changes nothing.
pub claim_host-resolves :
    (u : Util) (laws : UtilLaws u) (mc : MachineClient OneHost) (wait : ℤ) (helper m : ByotMachine)
    (name : String) (w : OneHost)
    → m.status.resolved_host ≡ ""
    → w.stored.meta.name ≢ ""
    → m.spec.host_ref ≡ some name
    → is_candidate u m w.stored ≡ true
    → let after_claim = world_of (claim_host u loyal (accepting mc) wait helper m w) in
      (claim_host u loyal (accepting mc) wait helper m w
        ≡ (ok (no_requeue, false, resolve w.stored m), after_claim))
      × (after_claim.stored.status ≡ (take_claim m w.stored).status)
      × (u.contains_finalizer after_claim.stored.meta.finalizers byot_host_finalizer ≡ true)
      × (claim_host u loyal (accepting mc) wait helper (resolve w.stored m) after_claim
          ≡ (ok (no_requeue, false, resolve w.stored m), after_claim))
unfolding claim_host is_candidate
claim_host-resolves u laws mc wait helper m name w unresolved named ref free = grind (
  arith,
  laws.contains-add,
  eq_iff m.status.resolved_host "",
  eq_iff w.stored.meta.name "",
  eq_refl,
)

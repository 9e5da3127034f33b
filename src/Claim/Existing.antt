-- ===== src/Claim/Existing.antt =====
-- What a ByotMachine with a resolved host learns of its claim (verifyExistingClaim and
-- clearResolvedHost of pkg/controller/claim.go).
use cluster_api_provider_bri.Prelude.{Bool, true, false, ◌≡◌}
use cluster_api_provider_bri.Go.{is_not_found}
use cluster_api_provider_bri.Go.Action.{Result, ok, err}
use cluster_api_provider_bri.Api.Host.{ByotHost}
use cluster_api_provider_bri.Api.Machine.{ByotMachine}
use cluster_api_provider_bri.Claim.{lost_claim, unresolve}

-- What the answer of the API server to the fetch of the resolved host allows: the claim is kept
-- only if the host has it, and then the public address is the host's; it is dropped only if the
-- host is gone or has another claim or none, and then all that was resolved is cleared.
abbrev pub IsWarranted : ByotMachine → Result ByotHost → Result (Bool × ByotMachine) → Type 0
IsWarranted m got (err e) = Unit
IsWarranted m (err e) (ok (kept, m')) =
    (is_not_found e ≡ true) × (kept ≡ false) × (m' ≡ unresolve m)
IsWarranted m (ok h) (ok (true, m')) =
    (lost_claim h.status.claim_ref m.meta.uid ≡ false)
    × (m'.status.resolved_host ≡ m.status.resolved_host)
    × (m'.status.resolved_public_ip ≡ h.spec.public_ip)
IsWarranted m (ok h) (ok (false, m')) =
    (lost_claim h.status.claim_ref m.meta.uid ≡ true) × (m' ≡ unresolve m)

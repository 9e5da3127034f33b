-- ===== src/Claim.antt =====
-- pkg/controller/claim.go: a ByotMachine claims a host of the registry and releases it. A method
-- that changes the ByotMachine returns the new record; an error drops it, as the next reconcile
-- fetches it again.
pub mod Acquire
pub mod Candidates
pub mod Existing
pub mod Orphan
pub mod Resolved
pub mod Race
use cluster_api_provider_bri.Prelude.{
  ℕ, String, Bool, true, false, not, ◌&&◌, ◌||◌, Option, none, some, List, [], ◌∷◌, ◌==◌, ◌!=◌,
  if◌then◌else◌,
}
use cluster_api_provider_bri.Prelude.Int.{ℤ}
use cluster_api_provider_bri.Prelude.Order.{str_lt}
use cluster_api_provider_bri.Go.{
  CtrlResult, no_requeue, requeue_now, after, Err, no_host_available, is_no_host_available,
  is_not_found, is_conflict, no_reset_credentials, wrap,
}
use cluster_api_provider_bri.Go.Action.{M, ok, err, handle, pure, raise, wrap_err, ask, ◌>>=◌, ◌>>◌}
use cluster_api_provider_bri.Api.Meta.{ObjectKey, ObjectMeta, Util, key_of}
use cluster_api_provider_bri.Api.Host.{
  ByotHost, ByotHostStatus, HostClaimRef, available, claimed, releasing, is_available,
  host_maintenance_probe_condition,
}
use cluster_api_provider_bri.Api.Machine.{ByotMachine, ByotMachineStatus}
use cluster_api_provider_bri.Endpoints.{
  Endpoints, host_internal_ip, host_endpoints, machine_endpoints,
}
use cluster_api_provider_bri.Client.{HostClient, MachineClient}
use cluster_api_provider_bri.HostController.{byot_host_finalizer, with_status}

-- `ref != nil && ref.UID != uid`
unfoldable pub claimed_by_other : Option HostClaimRef → String → Bool
claimed_by_other none uid = false
claimed_by_other (some ref) uid = ref.uid != uid

-- `ref == nil || ref.UID != uid`
unfoldable pub lost_claim : Option HostClaimRef → String → Bool
lost_claim none uid = true
lost_claim (some ref) uid = ref.uid != uid

-- `s == nil || *s == ""`
abbrev pub is_blank : Option String → Bool
is_blank none = true
is_blank (some s) = s == ""

abbrev pub value : Option String → String
value none = ""
value (some s) = s

unfoldable pub host_matches_failure_domain : ByotHost → Option String → Bool
host_matches_failure_domain h want =
    if is_blank want
    then true
    else if is_blank h.spec.failure_domain
    then true
    else value h.spec.failure_domain == value want

-- The claimRef that claimCAS writes.
unfoldable pub claim_ref_of : ByotMachine → HostClaimRef
claim_ref_of m = record {
  kind = "ByotMachine";
  name = m.meta.name;
  namespace = m.meta.namespace;
  uid = m.meta.uid;
}

-- The host with the machine's claim, as claimCAS stores it.
unfoldable pub take_claim : ByotMachine → ByotHost → ByotHost
unfolding claim_ref_of
take_claim m h =
    with_status h (record h.status { claim_ref = some (claim_ref_of m); phase = claimed })

-- The assignments of claimHost after a claim.
unfoldable pub resolve : ByotHost → ByotMachine → ByotMachine
unfolding host_internal_ip
resolve h m = record m {
  status = record m.status {
    resolved_host = h.meta.name;
    resolved_public_ip = h.spec.public_ip;
    resolved_internal_ip = host_internal_ip h;
  };
}

-- The assignments of clearResolvedHost.
unfoldable pub unresolve : ByotMachine → ByotMachine
unresolve m = record m {
  status = record m.status {
    resolved_host = "";
    resolved_public_ip = "";
    resolved_internal_ip = "";
  };
}

abbrev pub resolved_key : ByotMachine → ObjectKey
resolved_key m = record { namespace = m.meta.namespace; name = m.status.resolved_host }

-- sort.Slice by name, then the first: the least name. sort.Slice is not stable, but names are
-- unique within a namespace.
abbrev pub smaller : ByotHost → ByotHost → ByotHost
smaller a b = if str_lt b.meta.name a.meta.name then b else a

unfoldable pub first_by_name : ByotHost → List ByotHost → ByotHost
first_by_name h [] = h
first_by_name h (g ∷ hosts) = first_by_name (smaller h g) hosts

-- What selectClaimCandidate picks from the hosts that the API server lists.
unfoldable pub pick : List ByotHost → Option ByotHost
pick [] = none
pick (h ∷ hosts) = some (first_by_name h hosts)

module _ (u : Util) where
  unfoldable pub host_claimable : ByotHost → Bool
  host_claimable h = u.is_true h.status.conditions host_maintenance_probe_condition

  -- The four guards of the loop of filterClaimCandidates.
  unfoldable pub is_candidate : ByotMachine → ByotHost → Bool
  unfolding host_claimable host_matches_failure_domain
  is_candidate m h =
      if not (is_available h.status.phase)
      then false
      else if not (host_claimable h)
      then false
      else if claimed_by_other h.status.claim_ref m.meta.uid
      then false
      else if not (host_matches_failure_domain h m.spec.failure_domain)
      then false
      else true

  unfoldable pub filter_claim_candidates : List ByotHost → ByotMachine → List ByotHost
  filter_claim_candidates [] m = []
  filter_claim_candidates (h ∷ hosts) m =
      let rest = filter_claim_candidates hosts m in if is_candidate m h then h ∷ rest else rest

  -- The host with the protection finalizer.
  unfoldable pub protected : ByotHost → ByotHost
  protected h = record h {
    meta = record h.meta { finalizers = u.add_finalizer h.meta.finalizers byot_host_finalizer };
  }

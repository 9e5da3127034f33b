-- ===== src/Claim/Acquire.antt =====
-- Claiming a host (resolveHostRef, selectClaimCandidate, resolveClaimCandidate, claimCAS,
-- verifyExistingClaim, clearResolvedHost and claimHost of pkg/controller/claim.go).
use cluster_api_provider_bri.Prelude.{
  String, Bool, true, false, not, ◌||◌, Option, none, some, ◌==◌, ◌!=◌, if◌then◌else◌,
}
use cluster_api_provider_bri.Prelude.Int.{ℤ}
use cluster_api_provider_bri.Go.{
  CtrlResult, no_requeue, requeue_now, after, no_host_available, is_no_host_available, is_not_found,
  is_conflict, wrap,
}
use cluster_api_provider_bri.Go.Action.{M, handle, pure, raise, wrap_err, ◌>>=◌, ◌>>◌}
use cluster_api_provider_bri.Api.Meta.{Util, key_of}
use cluster_api_provider_bri.Api.Host.{ByotHost, is_available}
use cluster_api_provider_bri.Api.Machine.{ByotMachine}
use cluster_api_provider_bri.Client.{HostClient, MachineClient}
use cluster_api_provider_bri.HostController.{byot_host_finalizer}
use cluster_api_provider_bri.Claim.{
  claimed_by_other, lost_claim, take_claim, resolve, unresolve, resolved_key, pick, host_claimable,
  filter_claim_candidates, protected,
}

module _ {W : Type 0} (u : Util) (c : HostClient W) where
  abbrev or_no_host : Option ByotHost → M W ByotHost
  or_no_host none = raise no_host_available
  or_no_host (some a) = pure a

  -- The guards of resolveHostRef on the host that it fetched.
  unfoldable pub admit : ByotMachine → ByotHost → M W ByotHost
  unfolding host_claimable claimed_by_other
  admit m h =
      if not (is_available h.status.phase) || not (host_claimable u h)
      then raise no_host_available
      else if claimed_by_other h.status.claim_ref m.meta.uid
      then raise no_host_available
      else pure h

  unfoldable pub resolve_host_ref : String → ByotMachine → M W ByotHost
  unfolding admit
  resolve_host_ref name m =
      handle (c.get_host (record { namespace = m.meta.namespace; name = name }))
        (λ e.
          if is_not_found e
          then raise no_host_available
          else raise (wrap "failed to get ByotHost" e))
        (admit m)

  unfoldable pub select_claim_candidate : ByotMachine → M W ByotHost
  unfolding filter_claim_candidates pick
  select_claim_candidate m = do
    selector ← wrap_err "invalid hostSelector" (c.parse_selector m.spec.host_selector)
    hosts ← wrap_err "failed to list ByotHosts" (c.list_hosts m.meta.namespace selector)
    or_no_host (pick (filter_claim_candidates u hosts m))

  abbrev by_ref_or_selector : Option String → ByotMachine → M W ByotHost
  by_ref_or_selector (some name) m = resolve_host_ref name m
  by_ref_or_selector none m = select_claim_candidate m

  unfoldable pub resolve_claim_candidate : ByotMachine → M W ByotHost
  unfolding resolve_host_ref select_claim_candidate
  resolve_claim_candidate m = by_ref_or_selector m.spec.host_ref m

  -- The write of claimCAS on the host that it fetched again. AddFinalizer says whether it changed
  -- the object: it did if the finalizer was not there.
  unfoldable pub write_claim : ByotMachine → ByotHost → M W (Unit {0})
  unfolding take_claim protected
  write_claim m latest = do
    stored ← c.update_host_status (take_claim m latest)
    if u.contains_finalizer stored.meta.finalizers byot_host_finalizer then pure tt else (do
      wrap_err "failed to add finalizer to ByotHost" (c.update_host (protected u stored))
      pure tt)

  unfoldable pub claim_cas : ByotHost → ByotMachine → M W (Unit {0})
  unfolding write_claim claimed_by_other
  claim_cas h m = do
    latest ← c.get_host (key_of h.meta)
    if claimed_by_other latest.status.claim_ref m.meta.uid
        then raise no_host_available
        else write_claim m latest

module _ {W : Type 0} (u : Util) (c : HostClient W) (mc : MachineClient W) where
  -- `helper` is the snapshot of the ByotMachine's patch helper.
  unfoldable pub clear_resolved_host : ByotMachine → ByotMachine → M W ByotMachine
  unfolding unresolve
  clear_resolved_host helper m = do
    wrap_err "failed to patch ByotMachine after lost claim" (mc.patch_machine helper (unresolve m))
    pure (unresolve m)

  -- `false`, with the cleared machine.
  unfoldable pub lose_claim : ByotMachine → ByotMachine → M W (Bool × ByotMachine)
  unfolding clear_resolved_host
  lose_claim helper m = do cleared ← clear_resolved_host helper m; pure (false, cleared)

  -- verifyExistingClaim on the host that it fetched.
  unfoldable pub check_claim : ByotMachine → ByotMachine → ByotHost → M W (Bool × ByotMachine)
  unfolding lose_claim lost_claim
  check_claim helper m h =
      if lost_claim h.status.claim_ref m.meta.uid
      then lose_claim helper m
      else if m.status.resolved_public_ip != h.spec.public_ip
      then (do
        let healed = record m { status = record m.status { resolved_public_ip = h.spec.public_ip } }
        wrap_err "failed to patch ByotMachine resolved IP" (mc.patch_machine helper healed)
        pure (true, healed))
      else pure (true, m)

  -- Whether the machine holds its resolved host, and the machine.
  unfoldable pub verify_existing_claim : ByotMachine → ByotMachine → M W (Bool × ByotMachine)
  unfolding lose_claim check_claim
  verify_existing_claim helper m =
      if m.status.resolved_host == ""
      then pure (false, m)
      else handle (c.get_host (resolved_key m))
          (λ e.
            if is_not_found e then lose_claim helper m else raise (wrap "failed to get ByotHost" e))
          (check_claim helper m)

  -- claimHost after the CAS succeeded.
  unfoldable pub record_claim :
      ByotMachine → ByotMachine → ByotHost → M W (CtrlResult × Bool × ByotMachine)
  unfolding resolve
  record_claim helper m h = do
    wrap_err "failed to patch ByotMachine after claim" (mc.patch_machine helper (resolve h m))
    pure (no_requeue, false, resolve h m)

  -- claimHost for a machine that holds no host; `wait` is requeueAfterBootstrap.
  unfoldable pub claim_new : ℤ → ByotMachine → ByotMachine → M W (CtrlResult × Bool × ByotMachine)
  unfolding resolve_claim_candidate claim_cas record_claim
  claim_new wait helper m =
      handle (resolve_claim_candidate u c m)
        (λ e. if is_no_host_available e then pure (after wait, true, m) else raise e)
        λ h.
          handle (claim_cas u c h m)
            (λ e.
              if is_conflict e
              then pure (requeue_now, true, m)
              else raise (wrap "failed to claim ByotHost" e))
            λ _. record_claim helper m h

  -- The result, whether the caller returns it, and the machine.
  unfoldable pub claim_host : ℤ → ByotMachine → ByotMachine → M W (CtrlResult × Bool × ByotMachine)
  unfolding verify_existing_claim claim_new
  claim_host wait helper m = do
    (kept, m') ← verify_existing_claim helper m
    if kept then pure (no_requeue, false, m') else claim_new wait helper m'

-- ===== src/HostController/Liveness.antt =====
-- The liveness loop of pkg/controller/byothost_controller.go over consecutive failed probes, on an
-- API server that stores every patch.
use cluster_api_provider_bri.Prelude.{
  ℕ, zero, suc, ◌≤◌, ◌<◌, ◌≡◌, arith, leb, false, [], if◌then◌else◌,
}
use cluster_api_provider_bri.Prelude.Int.{pos, max_int32}
use cluster_api_provider_bri.Go.{other}
use cluster_api_provider_bri.Go.Action.{Result, ok}
use cluster_api_provider_bri.Api.Meta.{Util}
use cluster_api_provider_bri.Api.Host.{ByotHost, available, unavailable}
use cluster_api_provider_bri.Client.{HostClient}
use cluster_api_provider_bri.Discovery.Labels.{apply_discovery_labels}
use cluster_api_provider_bri.HostController.{
  HostSeams, HostReconciler, failure_threshold, reconcile_host,
}

-- The world of one host: the host as it is stored, and the time.
pub record OneHost : Type 0 where
  pub stored : ByotHost
  pub time : ℕ

abbrev put_host : ByotHost → OneHost → OneHost
put_host h w = record w { stored = h }

-- An API server that has one host and accepts every write.
abbrev pub loyal : HostClient OneHost
loyal = record {
  get_host = λ k w. (ok w.stored, w);
  list_hosts = λ n l w. (ok [], w);
  update_host = λ h w. (ok h, put_host h w);
  update_host_status = λ h w. (ok h, put_host h w);
  new_host_helper = λ h w. (ok h, w);
  patch_host = λ b h w. (ok tt, put_host h w);
  ensure_host_finalizer = λ h f w. (ok h, w);
  parse_selector = λ l w. (ok l, w);
  now = λ w. (w.time, record w { time = suc w.time });
}

-- A machine that does not answer.
abbrev pub silent_machine : HostSeams OneHost
silent_machine = record {
  discover = λ e i w. (Result.err (other "unreachable"), w);
  probe_maintenance = λ e w. (false, w);
}

abbrev pub world_of : {W : Type 0} {A : Type 0} → Result A × W → W
world_of (res, w) = w

-- The world after `k` reconciles of the host, each of the host as it is stored then.
abbrev pub rounds : Util → HostReconciler → ℕ → OneHost → OneHost
rounds u r zero w = w
rounds u r (suc k) w =
    let v = rounds u r k w in world_of (reconcile_host u loyal silent_machine r v.stored v.stored v)

-- A host that is Available with no failure counted and whose machine does not answer is, after `k`
-- reconciles, Unavailable if `k` has reached the failure threshold `n` and Available otherwise,
-- with `k` failures counted up to the threshold and `n` from then on: for a positive int32
-- threshold, the one that failureThreshold returns.
pub phase-rounds :
    (u : Util) (r : HostReconciler) (n k : ℕ) (w : OneHost)
    → failure_threshold r ≡ pos n
    → 0 < n
    → n ≤ max_int32
    → w.stored.status.phase ≡ available
    → w.stored.status.probe_failure_count ≡ pos 0
    → ((rounds u r k w).stored.status.phase ≡ (if leb n k then unavailable else available))
      × ((rounds u r k w).stored.status.probe_failure_count ≡ (if leb n k then pos n else pos k))
unfolding reconcile_host apply_discovery_labels
phase-rounds u r n zero w th p b live fresh = ground arith
phase-rounds u r n (suc k) w th p b live fresh =
    ground (arith, phase-rounds u r n k w th p b live fresh)

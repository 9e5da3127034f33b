-- ===== src/Registry/Cycle.antt =====
-- A host from one cluster to the next: releaseHost of pkg/controller/claim.go, then the reconciles of
-- pkg/controller/byothost_controller.go, on an API server that stores every write and a machine that
-- is away for some probes after its reset.
use cluster_api_provider_bri.Prelude.{
  ℕ, zero, suc, String, Bool, true, false, ◌&&◌, Option, none, some, List, [], ◌∷◌, ◌-◌, ◌==◌, ◌≡◌,
  arith, refl, leb, if◌then◌else◌, Bool-cases, inl, inr,
}
use cluster_api_provider_bri.Go.{Err}
use cluster_api_provider_bri.Go.Action.{Result, ok, err, M}
use cluster_api_provider_bri.Api.Meta.{ObjectKey, Util, UtilLaws, is_deleted, mark_true, Conditions}
use cluster_api_provider_bri.Api.Host.{
  ByotHost, available, releasing, host_maintenance_probe_condition,
}
use cluster_api_provider_bri.Api.Machine.{ByotMachine}
use cluster_api_provider_bri.Client.{HostClient}
use cluster_api_provider_bri.Endpoints.{Endpoints, machine_endpoints}
use cluster_api_provider_bri.Discovery.Labels.{apply_discovery_labels}
use cluster_api_provider_bri.HostController.{DiscoveryResult, HostSeams, HostReconciler, reconcile}
use cluster_api_provider_bri.Claim.{claimed_by_other, host_matches_failure_domain, is_candidate}
use cluster_api_provider_bri.Release.{
  ReleaseSeams, attempt_reset, attempt_reset_from, release_found, release_host, release_reset,
  store_release,
}
use cluster_api_provider_bri.Release.Attempts.{Answers, some_accepted}

-- One host as it is stored, the time, and how many probes its machine still misses.
pub record Fleet : Type 0 where
  pub stored : ByotHost
  pub time : ℕ
  pub away : ℕ

abbrev put : ByotHost → Fleet → Fleet
put h w = record w { stored = h }

abbrev pub registry : HostClient Fleet
registry = record {
  get_host = λ k w. (ok w.stored, w);
  list_hosts = λ n l w. (ok (w.stored ∷ []), w);
  update_host = λ h w. (ok h, put h w);
  update_host_status = λ h w. (ok h, put h w);
  new_host_helper = λ h w. (ok h, w);
  patch_host = λ b h w. (ok tt, put h w);
  ensure_host_finalizer = λ h f w. (ok h, w);
  parse_selector = λ l w. (ok l, w);
  now = λ w. (w.time, record w { time = suc w.time });
}

abbrev missed : ℕ → Fleet → Bool × Fleet
missed zero w = (true, w)
missed (suc k) w = (false, record w { away = k })

-- A machine whose discovery yields `d` once it answers.
abbrev pub rebooting : DiscoveryResult → HostSeams Fleet
rebooting d = record { discover = λ e ip w. (ok d, w); probe_maintenance = λ e w. missed w.away w }

abbrev accepted : ℕ → Option Err → M Fleet (Unit {0})
accepted n none w = (ok tt, record w { away = n })
accepted n (some e) w = (err e, w)

-- The machine in its cluster: it is not in maintenance mode, answers the reset with a credential as
-- `f` says, and is away for `n` probes once it has accepted one.
abbrev pub member : ℕ → List (Option String) → Answers → ReleaseSeams Fleet
member n l f = record {
  probe_maintenance = λ e w. (false, w);
  reset_credential_candidates = λ m w. (ok l, w);
  reset_machine = λ e c. accepted n (f c);
}

abbrev world_of : {A : Type 0} → Result A × Fleet → Fleet
world_of (r, w) = w

-- The world after `k` reconciles of the host.
abbrev pub reconciled : Util → HostReconciler → DiscoveryResult → ObjectKey → ℕ → Fleet → Fleet
unfolding reconcile
reconciled u r d key zero w = w
reconciled u r d key (suc k) w =
    world_of (reconcile u registry (rebooting d) r key (reconciled u r d key k w))

attempt_reset-accepted :
    (n : ℕ) (all l : List (Option String)) (f : Answers) (last : Option Err) (e : Endpoints)
    (w : Fleet)
    → some_accepted f l ≡ true
    → attempt_reset_from (member n all f) last l e w ≡ (ok tt, record w { away = n })
unfolding attempt_reset_from
attempt_reset-accepted n all [] f last e w some_ = ground arith
attempt_reset-accepted n all (c ∷ l) f last e w some_ =
    ground (arith, attempt_reset-accepted n all l f (f c) e w)

-- A host on its way back that has been reconciled `k` times.
record IsReturning (u : Util) (n : ℕ) (h : ByotHost) (k : ℕ) (w : Fleet) : Type 0 where
  pub phase : w.stored.status.phase ≡ (if leb (suc n) k then available else releasing)
  pub claim : w.stored.status.claim_ref ≡ none
  pub live : is_deleted w.stored.meta ≡ false
  pub domain : w.stored.spec.failure_domain ≡ h.spec.failure_domain
  pub away : w.away ≡ n - k
  pub alive :
      leb (suc n) k ≡ true
      → u.is_true w.stored.status.conditions host_maintenance_probe_condition ≡ true

marked :
    (u : Util)
    → UtilLaws u
    → (c : Conditions)
    → u.is_true (mark_true u c host_maintenance_probe_condition) host_maintenance_probe_condition
      ≡ true
marked u laws c =
    laws.is_true-set_condition c host_maintenance_probe_condition host_maintenance_probe_condition _

reconcile-IsReturning :
    (u : Util)
    → UtilLaws u
    → (r : HostReconciler) (d : DiscoveryResult) (key : ObjectKey) (n k : ℕ) (h : ByotHost)
      (w : Fleet)
    → IsReturning u n h k w
    → IsReturning u n h (suc k) (world_of (reconcile u registry (rebooting d) r key w))
unfolding reconcile apply_discovery_labels
reconcile-IsReturning u laws r d key n k h w before = record {
  phase = ground (arith, before.phase, before.live, before.away);
  claim = ground (arith, before.claim, before.phase, before.live, before.away);
  live = ground (arith, before.claim, before.phase, before.live, before.away);
  domain = ground (arith, before.claim, before.phase, before.live, before.away, before.domain);
  away = ground (arith, before.claim, before.phase, before.live, before.away);
  alive = λ e. grind (arith, before.phase, before.live, before.away, marked u laws);
}

reconciled-IsReturning :
    (u : Util)
    → UtilLaws u
    → (r : HostReconciler) (d : DiscoveryResult) (key : ObjectKey) (n k : ℕ) (h : ByotHost)
      (w : Fleet)
    → IsReturning u n h 0 w
    → IsReturning u n h k (reconciled u r d key k w)
unfolding reconcile
reconciled-IsReturning u laws r d key n zero h w start = start
reconciled-IsReturning u laws r d key n (suc k) h w start =
    reconcile-IsReturning u laws r d key n k h (reconciled u r d key k w)
      (reconciled-IsReturning u laws r d key n k h w start)

-- The world after the release of the host and `k` reconciles of it.
abbrev pub returned :
    Util
    → HostReconciler
    → DiscoveryResult
    → ℕ
    → List (Option String)
    → Answers
    → ByotMachine
    → ObjectKey
    → ℕ
    → Fleet
    → Fleet
unfolding release_host
returned u r d n l f m key k w =
    reconciled u r d key k (world_of (release_host registry (member n l f) m w))

release_host-IsReturning :
    (u : Util) (n : ℕ) (l : List (Option String)) (f : Answers) (m : ByotMachine) (w : Fleet)
    → (m.status.resolved_host == "") ≡ false
    → is_deleted w.stored.meta ≡ false
    → some_accepted f l ≡ true
    → IsReturning u n w.stored 0 (world_of (release_host registry (member n l f) m w))
unfolding release_host release_found attempt_reset store_release release_reset
release_host-IsReturning u n l f m w resolved live some_ =
    let reset = attempt_reset-accepted n l l f none (machine_endpoints m) w some_ in
    rw (resolved, reset)
      (record {
        phase = ground arith;
        claim = refl;
        live = live;
        domain = refl;
        away = ground arith;
        alive = λ e. ground arith;
      })

is_candidate-returning :
    (u : Util) (n k : ℕ) (h : ByotHost) (w : Fleet) (other : ByotMachine)
    → IsReturning u n h k w
    → is_candidate u other w.stored
      ≡ (leb (suc n) k && host_matches_failure_domain h other.spec.failure_domain)
unfolding is_candidate claimed_by_other
is_candidate-returning u n k h w other i = elim (Bool-cases (leb (suc n) k)) [
  | inl late ↦ (let alive = i.alive late in rw (i.claim, i.domain) (ground (arith, i.phase)))
  | inr early ↦ ground (arith, i.phase)
]

-- On an API server that stores every write: if releaseHost runs for a ByotMachine with a resolved
-- host, the host is not being deleted, and its machine, which discovery then reads without an error,
-- accepts the reset with one of the candidates and misses `n` maintenance probes after it, then after
-- `k` reconciles the host is Available if `k` exceeds `n` and Releasing otherwise, has no claim,
-- and is a claim candidate of a ByotMachine exactly if `k` exceeds `n` and its failure domain fits.
pub release_host-returns :
    (u : Util)
    → UtilLaws u
    → (r : HostReconciler) (d : DiscoveryResult) (key : ObjectKey) (n k : ℕ)
      (l : List (Option String)) (f : Answers) (m other : ByotMachine) (w : Fleet)
    → (m.status.resolved_host == "") ≡ false
    → is_deleted w.stored.meta ≡ false
    → some_accepted f l ≡ true
    → ((returned u r d n l f m key k w).stored.status.phase
        ≡ (if leb (suc n) k then available else releasing))
      × ((returned u r d n l f m key k w).stored.status.claim_ref ≡ none)
      × (is_candidate u other (returned u r d n l f m key k w).stored
          ≡ (leb (suc n) k && host_matches_failure_domain w.stored other.spec.failure_domain))
unfolding is_candidate reconcile release_host
release_host-returns u laws r d key n k l f m other w resolved live some_ =
    let h =
      reconciled-IsReturning u laws r d key n k w.stored
        (world_of (release_host registry (member n l f) m w))
        (release_host-IsReturning u n l f m w resolved live some_) in
    (h.phase, h.claim, is_candidate-returning u n k w.stored _ other h)

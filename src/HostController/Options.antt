-- ===== src/HostController/Options.antt =====
-- The tunables of ByotHostReconciler: their defaults, SetOptions, and the getters that fall back to
-- the defaults. Durations are nanoseconds.
use cluster_api_provider_bri.Prelude.{if◌then◌else◌}
use cluster_api_provider_bri.Prelude.Int.{ℤ, pos, is_pos}

-- The tunable fields of ByotHostReconciler.
pub record HostReconciler : Type 0 where
  pub liveness_interval : ℤ
  pub failure_threshold : ℤ
  pub probe_requeue : ℤ
  pub claimed_requeue : ℤ

-- ByotHostOptions has the same fields.
abbrev pub ByotHostOptions : Type 0
ByotHostOptions = HostReconciler

abbrev pub host_liveness_interval : ℤ
host_liveness_interval = pos 60000000000

abbrev pub host_probe_requeue : ℤ
host_probe_requeue = pos 15000000000

abbrev pub host_claimed_requeue : ℤ
host_claimed_requeue = pos 300000000000

abbrev pub host_failure_threshold : ℤ
host_failure_threshold = pos 3

-- The fields that NewByotHostReconciler sets; the others are zero.
unfoldable pub new_byot_host_reconciler : HostReconciler
new_byot_host_reconciler = record {
  liveness_interval = host_liveness_interval;
  failure_threshold = host_failure_threshold;
  probe_requeue = pos 0;
  claimed_requeue = pos 0;
}

-- `if new > 0 { field = new }`, and the shape of the getters below.
abbrev pub or_keep : ℤ → ℤ → ℤ
or_keep new old = if is_pos new then new else old

unfoldable pub set_options : ByotHostOptions → HostReconciler → HostReconciler
set_options o r = record {
  liveness_interval = or_keep o.liveness_interval r.liveness_interval;
  failure_threshold = or_keep o.failure_threshold r.failure_threshold;
  probe_requeue = or_keep o.probe_requeue r.probe_requeue;
  claimed_requeue = or_keep o.claimed_requeue r.claimed_requeue;
}

unfoldable pub liveness_interval : HostReconciler → ℤ
liveness_interval r = or_keep r.liveness_interval host_liveness_interval

unfoldable pub failure_threshold : HostReconciler → ℤ
failure_threshold r = or_keep r.failure_threshold host_failure_threshold

unfoldable pub probe_requeue : HostReconciler → ℤ
probe_requeue r = or_keep r.probe_requeue host_probe_requeue

unfoldable pub claimed_requeue : HostReconciler → ℤ
claimed_requeue r = or_keep r.claimed_requeue host_claimed_requeue

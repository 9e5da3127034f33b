-- ===== src/Go.antt =====
-- Go's error values as the controllers use them (pkg/controller/errors.go and the package-level
-- errors of the other files), results, and actions that call the outside world.
--
-- An error is a sentinel, an API status error, an error of foreign code, or one that fmt.Errorf
-- wraps with `%w` around another. errors.Is and the tests of apierrors look through the wrapping.
-- The texts of messages are not modelled, beyond the constant head of each format.
pub mod Action
use cluster_api_provider_bri.Prelude.{String, Bool, true, false}
use cluster_api_provider_bri.Prelude.Int.{ℤ, pos}

pub data Err : Type 0 where
  no_host_available : Err
  bootstrap_data_not_ready : Err
  bootstrap_data_empty : Err
  cluster_talos_config_not_ready : Err
  no_reset_credentials : Err
  join_bundle_mismatch : Err
  join_no_credentials : Err
  version_probe_empty : Err
  version_probe_no_info : Err
  no_system_disk : Err
  boot_id_unauthorized : Err
  workload_node_pending : Err
  requeue_kubeconfig_pending : Err
  upgrade_exit_code : ℤ → String → Err
  cluster_not_connected : Err  -- clustercache.ErrClusterNotConnected
  not_found : Err  -- an API status error with reason NotFound
  conflict : Err  -- an API status error with reason Conflict
  other : String → Err
  wrap : String → Err → Err

-- apierrors.IsNotFound
abbrev pub is_not_found : Err → Bool
is_not_found (wrap _ e) = is_not_found e
is_not_found not_found = true
is_not_found _ = false

-- apierrors.IsConflict
abbrev pub is_conflict : Err → Bool
is_conflict (wrap _ e) = is_conflict e
is_conflict conflict = true
is_conflict _ = false

-- errors.Is(err, ErrNoHostAvailable), and so for the sentinels below.
abbrev pub is_no_host_available : Err → Bool
is_no_host_available (wrap _ e) = is_no_host_available e
is_no_host_available no_host_available = true
is_no_host_available _ = false

abbrev pub is_bootstrap_data_not_ready : Err → Bool
is_bootstrap_data_not_ready (wrap _ e) = is_bootstrap_data_not_ready e
is_bootstrap_data_not_ready bootstrap_data_not_ready = true
is_bootstrap_data_not_ready _ = false

abbrev pub is_talos_config_not_ready : Err → Bool
is_talos_config_not_ready (wrap _ e) = is_talos_config_not_ready e
is_talos_config_not_ready cluster_talos_config_not_ready = true
is_talos_config_not_ready _ = false

abbrev pub is_boot_id_unauthorized : Err → Bool
is_boot_id_unauthorized (wrap _ e) = is_boot_id_unauthorized e
is_boot_id_unauthorized boot_id_unauthorized = true
is_boot_id_unauthorized _ = false

abbrev pub is_workload_node_pending : Err → Bool
is_workload_node_pending (wrap _ e) = is_workload_node_pending e
is_workload_node_pending workload_node_pending = true
is_workload_node_pending _ = false

abbrev pub is_kubeconfig_pending : Err → Bool
is_kubeconfig_pending (wrap _ e) = is_kubeconfig_pending e
is_kubeconfig_pending requeue_kubeconfig_pending = true
is_kubeconfig_pending _ = false

abbrev pub is_cluster_not_connected : Err → Bool
is_cluster_not_connected (wrap _ e) = is_cluster_not_connected e
is_cluster_not_connected cluster_not_connected = true
is_cluster_not_connected _ = false

-- ctrl.Result: whether and after how long (in nanoseconds, a time.Duration) to reconcile again.
pub record CtrlResult : Type 0 where
  pub requeue : Bool
  pub requeue_after : ℤ

-- ctrl.Result{}
abbrev pub no_requeue : CtrlResult
no_requeue = record { requeue = false; requeue_after = pos 0 }

-- ctrl.Result{Requeue: true}
abbrev pub requeue_now : CtrlResult
requeue_now = record { requeue = true; requeue_after = pos 0 }

-- ctrl.Result{RequeueAfter: d}
abbrev pub after : ℤ → CtrlResult
after d = record { requeue = false; requeue_after = d }

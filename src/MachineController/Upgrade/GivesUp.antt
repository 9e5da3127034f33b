-- ===== src/MachineController/Upgrade/GivesUp.antt =====
-- The end of an upgrade whose machine does not come back (ensureTalosVersion,
-- recordUpgradeProbeFailure and finalizeUpgradeFailure of
-- pkg/controller/byotmachine_controller.go), on an API server that stores every patch.
use cluster_api_provider_bri.Prelude.{
  ℕ, zero, suc, ◌≤◌, ◌<◌, String, true, false, none, some, [], ◌∷◌, ◌≡◌, ◌≢◌, arith, eq_iff, leb,
  if◌then◌else◌,
}
use cluster_api_provider_bri.Prelude.Int.{pos, max_int32}
use cluster_api_provider_bri.Prelude.Dict.{lookup}
use cluster_api_provider_bri.Go.{other}
use cluster_api_provider_bri.Go.Action.{Result, ok, err}
use cluster_api_provider_bri.Api.Meta.{Util}
use cluster_api_provider_bri.Api.Machine.{ByotMachine, in_flight, failed}
use cluster_api_provider_bri.Api.Cluster.{Machine}
use cluster_api_provider_bri.Client.{HostClient, MachineClient}
use cluster_api_provider_bri.MachineController.Options.{MachineReconciler, upgrade_threshold}
use cluster_api_provider_bri.MachineController.Seams.{MachineSeams}
use cluster_api_provider_bri.MachineController.Secrets.{await_cluster_talos_config}
use cluster_api_provider_bri.MachineController.Upgrade.{
  retrigger_stale_upgrade_failure, is_stale_failure, finalize_upgrade_failure, clear_after_reset,
  clear_adoption, record_upgrade_probe_failure, count_probe_failure, mark_failed,
}
use cluster_api_provider_bri.MachineController.Upgrade.Poll.{
  ensure_talos_version, upgrade_step, upgrade_in_flight, upgrade_in_flight_version_fallback,
  upgrade_in_flight_boot_id_gate,
}

-- The world of one ByotMachine: the machine as it is stored.
abbrev pub OneMachine : Type 0
OneMachine = ByotMachine

-- The API server: every patch is stored, and every secret holds a talosconfig. The calls that an
-- upgrade does not make fail.
abbrev pub storing : String → MachineClient OneMachine
storing cfg = record {
  get_byot_machine = λ k w. (ok w, w);
  update_byot_machine = λ m w. (ok m, m);
  new_machine_helper = λ m w. (ok m, w);
  patch_machine = λ b m w. (ok tt, m);
  patch_machine_owned = λ b m o w. (ok tt, m);
  ensure_machine_finalizer = λ m f w. (ok m, w);
  get_owner_machine = λ m w. (ok none, w);
  get_machine = λ k w. (err (other "unused"), w);
  get_cluster = λ k w. (err (other "unused"), w);
  get_secret = λ k w. (ok (record { entries = ("talosconfig", cfg) ∷ [] }), w);
  unix_nano = λ w. ("0", w);
}

-- A machine that does not answer, and whose reset succeeds or not.
abbrev pub dead : Result (Unit {0}) → MachineSeams OneMachine
dead reset = record {
  probe_maintenance = λ e w. (false, w);
  probe_authenticated = λ e cfg w. (false, w);
  version_probe_authenticated = λ e cfg w. (err (other "unreachable"), w);
  upgrade_machine = λ e cfg v w. (err (other "unreachable"), w);
  boot_id_authenticated = λ e cfg w. (err (other "unreachable"), w);
  reset_adopted_host = λ m w. (reset, w);
  apply_machine_config = λ e c cfg w. (err (other "unreachable"), w);
  reset_machine = λ e cfg w. (err (other "unreachable"), w);
  detect_system_disk = λ e cfg w. (err (other "unreachable"), w);
  service_running = λ e cfg n w. (err (other "unreachable"), w);
  restart_service = λ e cfg n w. (err (other "unreachable"), w);
}

module _ (u : Util) (hc : HostClient OneMachine) (r : MachineReconciler) (cfg : String)
    (reset : Result (Unit {0})) (machine : Machine) where
  -- The machine after `k` reconciles, each of the machine as it is stored then.
  abbrev pub polls : ℕ → ByotMachine → ByotMachine
  polls zero m = m
  polls (suc k) m =
      let g = polls k m in (ensure_talos_version u hc (storing cfg) (dead reset) r g g machine g).1

  -- The machine after `k` polls with the threshold `n`: in flight with `k` failures, or failed for
  -- its generation.
  abbrev IsAfter : String → ℕ → ℕ → ByotMachine → Type 0
  IsAfter v n k g =
      if leb n k
      then (g.status.upgrade_state ≡ failed)
        × (g.status.upgrade_attempt_generation ≡ g.meta.generation)
        × (g.spec.desired_talos_version ≡ some v)
      else (g.status.upgrade_state ≡ in_flight)
        × (g.status.upgrade_probe_failures ≡ pos k)
        × (g.spec.desired_talos_version ≡ some v)
        × (g.status.ready ≡ true)

  poll-IsAfter :
      (v : String) (n k : ℕ) (g : ByotMachine)
      → cfg ≢ ""
      → v ≢ ""
      → upgrade_threshold r ≡ pos n
      → n ≤ max_int32
      → IsAfter v n k g
      → IsAfter v n (suc k) (ensure_talos_version u hc (storing cfg) (dead reset) r g g machine g).1
  unfolding ensure_talos_version upgrade_step upgrade_in_flight upgrade_in_flight_version_fallback
      upgrade_in_flight_boot_id_gate record_upgrade_probe_failure count_probe_failure
      finalize_upgrade_failure clear_after_reset clear_adoption mark_failed
      retrigger_stale_upgrade_failure is_stale_failure await_cluster_talos_config lookup
  poll-IsAfter v n k g some_cfg some_v th small now = grind (arith, eq_iff cfg "", eq_iff v "")

  polls-IsAfter :
      (v : String) (n k : ℕ) (m : ByotMachine)
      → cfg ≢ ""
      → v ≢ ""
      → upgrade_threshold r ≡ pos n
      → n ≤ max_int32
      → IsAfter v n 0 m
      → IsAfter v n k (polls k m)
  polls-IsAfter v n zero m some_cfg some_v th small now = now
  polls-IsAfter v n (suc k) m some_cfg some_v th small now =
      poll-IsAfter v n k (polls k m) some_cfg some_v th small
        (polls-IsAfter v n k m some_cfg some_v th small now)

-- A Ready ByotMachine whose upgrade is in flight with no failure counted, and whose machine no
-- longer answers, stays in flight for fewer polls than the upgrade threshold `n` and is Failed from
-- the `n`-th on, whether the reset of the host succeeds or not: the upgrade always ends.
pub upgrade_state-polls :
    (u : Util) (hc : HostClient OneMachine) (r : MachineReconciler) (cfg v : String)
    (reset : Result (Unit {0})) (machine : Machine) (n k : ℕ) (m : ByotMachine)
    → cfg ≢ ""
    → upgrade_threshold r ≡ pos n
    → 0 < n
    → n ≤ max_int32
    → m.spec.desired_talos_version ≡ some v
    → v ≢ ""
    → m.status.ready ≡ true
    → m.status.upgrade_state ≡ in_flight
    → m.status.upgrade_probe_failures ≡ pos 0
    → (polls u hc r cfg reset machine k m).status.upgrade_state
      ≡ (if leb n k then failed else in_flight)
upgrade_state-polls u hc r cfg v reset machine n k m some_cfg th p small want some_v ready fl
      fresh =
    let after_all =
      polls-IsAfter u hc r cfg reset machine v n k m some_cfg some_v th small (ground arith) in
    ground arith

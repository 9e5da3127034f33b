-- ===== src/MachineController/Upgrade/Reboot.antt =====
-- A machine that takes a Talos upgrade and comes back, with its ByotMachine and its host, on an API
-- server that stores every write, and the reconciles of the ByotMachine (ensureTalosVersion of
-- pkg/controller/byotmachine_controller.go).
pub mod Once
use cluster_api_provider_bri.Prelude.{
  ℕ, zero, suc, ◌-◌, String, Bool, true, false, none, some, [], ◌∷◌, ◌≡◌, refl, arith, eq_iff,
  eq_refl, ltb, Bool-cases, ◌⊎◌, inl, inr, nat_eq, ◌==◌, if◌then◌else◌,
}
use cluster_api_provider_bri.Prelude.Int.{ℤ, pos, negsuc, eq_ℤ}
use cluster_api_provider_bri.Prelude.Dict.{lookup}
use cluster_api_provider_bri.Go.{other}
use cluster_api_provider_bri.Go.Action.{Result, ok, err}
use cluster_api_provider_bri.Api.Meta.{Util}
use cluster_api_provider_bri.Api.Host.{ByotHost}
use cluster_api_provider_bri.Api.Machine.{ByotMachine, no_upgrade, in_flight}
use cluster_api_provider_bri.Api.Cluster.{Machine}
use cluster_api_provider_bri.Client.{HostClient, MachineClient}
use cluster_api_provider_bri.MachineController.Options.{MachineReconciler}
use cluster_api_provider_bri.MachineController.Seams.{MachineSeams}
use cluster_api_provider_bri.MachineController.Secrets.{await_cluster_talos_config}
use cluster_api_provider_bri.MachineController.Upgrade.{
  retrigger_stale_upgrade_failure, is_stale_failure, upgrade_already_applied,
  upgrade_probe_and_issue, issue_upgrade, mark_in_flight, stash_boot_id, note_version,
  mark_upgraded, mark_upgrade_complete, sync_host_talos_version, mirror_version,
}
use cluster_api_provider_bri.MachineController.Upgrade.Poll.{
  ensure_talos_version, upgrade_step, upgrade_in_flight, upgrade_in_flight_boot_id_gate, poll_again,
  complete_by_boot_id,
}

-- A ByotMachine and its host as they are stored, how many polls the machine still runs the old
-- boot, and how many upgrades were issued.
pub record Site : Type 0 where
  pub machine : ByotMachine
  pub host : ByotHost
  pub away : ℕ
  pub issued : ℕ

abbrev pub hosts : HostClient Site
hosts = record {
  get_host = λ k w. (ok w.host, w);
  list_hosts = λ n l w. (ok (w.host ∷ []), w);
  update_host = λ h w. (ok h, record w { host = h });
  update_host_status = λ h w. (ok h, record w { host = h });
  new_host_helper = λ h w. (ok h, w);
  patch_host = λ b h w. (ok tt, record w { host = h });
  ensure_host_finalizer = λ h f w. (ok h, w);
  parse_selector = λ l w. (ok l, w);
  now = λ w. (0, w);
}

-- Every secret holds a talosconfig; the calls that an upgrade does not make fail.
abbrev pub machines : String → MachineClient Site
machines cfg = record {
  get_byot_machine = λ k w. (ok w.machine, w);
  update_byot_machine = λ m w. (ok m, record w { machine = m });
  new_machine_helper = λ m w. (ok m, w);
  patch_machine = λ b m w. (ok tt, record w { machine = m });
  patch_machine_owned = λ b m o w. (ok tt, record w { machine = m });
  ensure_machine_finalizer = λ m f w. (ok m, w);
  get_owner_machine = λ m w. (ok none, w);
  get_machine = λ k w. (err (other "unused"), w);
  get_cluster = λ k w. (err (other "unused"), w);
  get_secret = λ k w. (ok (record { entries = ("talosconfig", cfg) ∷ [] }), w);
  unix_nano = λ w. ("0", w);
}

-- The boot ids and the Talos versions before and after the upgrade.
pub record Boots : Type 0 where
  pub old_id : String
  pub new_id : String
  pub old_version : String
  pub new_version : String

abbrev booted : Boots → ℕ → Site → Result String × Site
booted b zero w = (ok b.new_id, w)
booted b (suc k) w = (ok b.old_id, record w { away = k })

-- A machine that takes the upgrade and has rebooted after `n` polls.
abbrev pub upgradable : Boots → ℕ → MachineSeams Site
upgradable b n = record {
  probe_maintenance = λ e w. (false, w);
  probe_authenticated = λ e cfg w. (true, w);
  version_probe_authenticated =
      λ e cfg w. (ok (if nat_eq w.issued 0 then b.old_version else b.new_version), w);
  upgrade_machine = λ e cfg v w. (ok b.old_id, record w { away = n; issued = suc w.issued });
  boot_id_authenticated = λ e cfg w. booted b w.away w;
  reset_adopted_host = λ m w. (err (other "unused"), w);
  apply_machine_config = λ e c cfg w. (err (other "unused"), w);
  reset_machine = λ e cfg w. (err (other "unused"), w);
  detect_system_disk = λ e cfg w. (err (other "unused"), w);
  service_running = λ e cfg n w. (err (other "unused"), w);
  restart_service = λ e cfg n w. (err (other "unused"), w);
}

module _ (u : Util) (r : MachineReconciler) (cfg : String) (b : Boots) (n : ℕ)
    (owner : Machine) where
  abbrev world_of : {A : Type 0} → Result A × Site → Site
  world_of (res, w) = w

  -- One reconcile of the machine as it is stored.
  abbrev pub upgraded_once : Site → Site
  unfolding ensure_talos_version
  upgraded_once w =
      world_of
        (ensure_talos_version u hosts (machines cfg) (upgradable b n) r w.machine w.machine owner w)

  unfoldable pub upgraded_by : ℕ → Site → Site
  unfolding ensure_talos_version
  upgraded_by zero w = w
  upgraded_by (suc k) w = upgraded_once (upgraded_by k w)

  -- The upgrade is complete: the image is recorded and the version is the new one, on the host too.
  abbrev pub IsDone : String → Site → Type 0
  IsDone v w =
      (w.machine.status.upgrade_state ≡ no_upgrade)
      × (w.machine.status.upgrade_applied_image_ref ≡ v)
      × (w.machine.status.upgrade_attempt_generation ≡ w.machine.meta.generation)
      × (w.machine.status.current_talos_version ≡ b.new_version)
      × (w.host.status.talos_version ≡ b.new_version)

  -- The upgrade is in flight, and what is left of the polls that read the old boot id.
  abbrev pub IsPolled : ℕ → Site → Type 0
  IsPolled k w =
      (w.machine.status.upgrade_state ≡ in_flight)
      × (w.machine.status.upgrade_pre_reboot_boot_id ≡ b.old_id)
      × (w.away ≡ n - k)

  -- The site after `k` polls that follow the reconcile which issues the upgrade: in flight, or
  -- done from the poll on that reads the new boot id.
  pub record IsAfter (v : String) (k : ℕ) (w : Site) : Type 0 where
    pub ready : w.machine.status.ready ≡ true
    pub wants : w.machine.spec.desired_talos_version ≡ some v
    pub holds : (w.machine.status.resolved_host == "") ≡ false
    pub once : w.issued ≡ 1
    pub stage : if ltb n k then IsDone v w else IsPolled k w

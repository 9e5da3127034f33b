-- ===== src/MachineController/Upgrade/Reboot/Once.antt =====
-- One reconcile of a ByotMachine whose machine is upgraded: the upgrade is issued, the old boot id is
-- read, the new one is read, and nothing is left to do (ensureTalosVersion of
-- pkg/controller/byotmachine_controller.go).
use cluster_api_provider_bri.Prelude.{
  ℕ, suc, String, Bool, true, false, some, ◌≡◌, refl, arith, eq_iff, eq_refl, ◌==◌,
}
use cluster_api_provider_bri.Prelude.Int.{ℤ, pos, negsuc, eq_ℤ}
use cluster_api_provider_bri.Prelude.Dict.{lookup}
use cluster_api_provider_bri.Api.Meta.{Util}
use cluster_api_provider_bri.Api.Host.{ByotHost}
use cluster_api_provider_bri.Api.Machine.{no_upgrade, in_flight}
use cluster_api_provider_bri.Api.Cluster.{Machine}
use cluster_api_provider_bri.MachineController.Options.{MachineReconciler}
use cluster_api_provider_bri.MachineController.Secrets.{await_cluster_talos_config}
use cluster_api_provider_bri.MachineController.Upgrade.{
  retrigger_stale_upgrade_failure, is_stale_failure, upgrade_already_applied,
  upgrade_probe_and_issue, issue_upgrade, mark_in_flight, stash_boot_id, note_version,
  mark_upgraded, mark_upgrade_complete, sync_host_talos_version, mirror_version,
}
use cluster_api_provider_bri.MachineController.Upgrade.Poll.{
  ensure_talos_version, upgrade_step, upgrade_in_flight, upgrade_in_flight_boot_id_gate, poll_again,
  complete_by_boot_id,
}
use cluster_api_provider_bri.MachineController.Upgrade.Reboot.{Site, Boots, upgraded_once, IsDone}

eq_ℤ_refl : (z : ℤ) → eq_ℤ z z ≡ true
eq_ℤ_refl (pos n) = ground arith
eq_ℤ_refl (negsuc n) = ground arith

module _ (u : Util) (r : MachineReconciler) (cfg : String) (b : Boots) (n : ℕ)
    (owner : Machine) where
  -- The host with the version, as syncHostTalosVersion leaves it.
  abbrev pub mirrored : Bool → ByotHost → ByotHost
  mirrored true h = h
  mirrored false h = record h { status = record h.status { talos_version = b.new_version } }

  pub mark_upgraded-IsDone :
      (v : String) (w : Site)
      → w.machine.spec.desired_talos_version ≡ some v
      → w.machine.status.current_talos_version ≡ b.new_version
      → w.host.status.talos_version ≡ b.new_version
      → IsDone u r cfg b n owner v (record w { machine = mark_upgraded u w.machine })
  unfolding mark_upgraded
  mark_upgraded-IsDone v w wants current host = (refl, rw (wants) refl, refl, current, host)

  pub mirrored-new :
      (same : Bool) (h : ByotHost)
      → (h.status.talos_version == b.new_version) ≡ same
      → (mirrored same h).status.talos_version ≡ b.new_version
  mirrored-new true h same = (eq_iff h.status.talos_version b.new_version).0 same
  mirrored-new false h same = refl

  module _ (v : String) (some_cfg : (cfg == "") ≡ false) (some_v : (v == "") ≡ false)
      (old : (b.old_id == "") ≡ false) (new : (b.new_id == "") ≡ false)
      (differ : (b.new_id == b.old_id) ≡ false) (version : (b.new_version == "") ≡ false) where
    pub upgraded_once-issues :
        (w : Site)
        → w.machine.status.ready ≡ true
        → w.machine.spec.desired_talos_version ≡ some v
        → w.machine.status.upgrade_state ≡ no_upgrade
        → upgrade_already_applied w.machine v ≡ false
        → w.issued ≡ 0
        → upgraded_once u r cfg b n owner w ≡ record w {
          machine = stash_boot_id b.old_id (mark_in_flight u b.old_version w.machine);
          away = n;
          issued = 1;
        }
    unfolding ensure_talos_version upgrade_step upgrade_probe_and_issue issue_upgrade
        retrigger_stale_upgrade_failure is_stale_failure await_cluster_talos_config lookup
        mark_in_flight stash_boot_id upgrade_already_applied
    upgraded_once-issues w ready wants state_ fresh issued =
        rw (wants, some_v, ready, state_, some_v, fresh, some_cfg, issued) refl

    pub upgraded_once-waits :
        (k : ℕ) (w : Site)
        → w.machine.status.ready ≡ true
        → w.machine.spec.desired_talos_version ≡ some v
        → w.machine.status.upgrade_state ≡ in_flight
        → w.machine.status.upgrade_pre_reboot_boot_id ≡ b.old_id
        → w.away ≡ suc k
        → upgraded_once u r cfg b n owner w ≡ record w { away = k }
    unfolding ensure_talos_version upgrade_step upgrade_in_flight upgrade_in_flight_boot_id_gate
        retrigger_stale_upgrade_failure is_stale_failure await_cluster_talos_config lookup
        poll_again
    upgraded_once-waits k w ready wants flying boot away =
        rw (wants, some_v, ready, flying, some_cfg, boot, old, away, old, eq_refl b.old_id) refl

    pub upgraded_once-completes :
        (same : Bool) (w : Site)
        → w.machine.status.ready ≡ true
        → w.machine.spec.desired_talos_version ≡ some v
        → (w.machine.status.resolved_host == "") ≡ false
        → w.issued ≡ 1
        → w.machine.status.upgrade_state ≡ in_flight
        → w.machine.status.upgrade_pre_reboot_boot_id ≡ b.old_id
        → w.away ≡ 0
        → (w.host.status.talos_version == b.new_version) ≡ same
        → upgraded_once u r cfg b n owner w ≡ record w {
          machine = mark_upgraded u (note_version b.new_version w.machine);
          host = mirrored same w.host;
        }
    unfolding ensure_talos_version upgrade_step upgrade_in_flight upgrade_in_flight_boot_id_gate
        retrigger_stale_upgrade_failure is_stale_failure await_cluster_talos_config lookup
        complete_by_boot_id mark_upgrade_complete mark_upgraded note_version sync_host_talos_version
        mirror_version
    upgraded_once-completes true w ready wants holds once flying boot away same =
        rw
          (
            wants, some_v, ready, flying, some_cfg, boot, old, away, new, differ, once, version,
            holds, same,
          )
          refl
    upgraded_once-completes false w ready wants holds once flying boot away same =
        rw
          (
            wants, some_v, ready, flying, some_cfg, boot, old, away, new, differ, once, version,
            holds, same,
          )
          refl

    pub upgraded_once-rests :
        (w : Site)
        → w.machine.status.ready ≡ true
        → w.machine.spec.desired_talos_version ≡ some v
        → (w.machine.status.resolved_host == "") ≡ false
        → IsDone u r cfg b n owner v w
        → upgraded_once u r cfg b n owner w ≡ record w { machine = mark_upgraded u w.machine }
    unfolding ensure_talos_version upgrade_step retrigger_stale_upgrade_failure is_stale_failure
        upgrade_already_applied mark_upgrade_complete mark_upgraded sync_host_talos_version
        mirror_version
    upgraded_once-rests w ready wants holds (state_, applied, gen, current, host) =
        rw
          (
            wants,
            some_v,
            ready,
            state_,
            some_v,
            applied,
            eq_refl v,
            gen,
            eq_ℤ_refl w.machine.meta.generation,
            holds,
            current,
            version,
            host,
            eq_refl b.new_version,
          )
          refl

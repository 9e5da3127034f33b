-- ===== src/MachineController/Upgrade/Succeeds.antt =====
-- An upgrade whose machine comes back (ensureTalosVersion, upgradeMachine's answer, the polls and
-- syncHostTalosVersion of pkg/controller/byotmachine_controller.go), on an API server that stores
-- every write.
use cluster_api_provider_bri.Prelude.{
  ℕ, zero, suc, ◌-◌, String, Bool, true, false, some, ◌≡◌, refl, arith, ltb, Bool-cases, ◌⊎◌, inl,
  inr, ◌==◌, if◌then◌else◌,
}
use cluster_api_provider_bri.Api.Meta.{Util}
use cluster_api_provider_bri.Api.Machine.{no_upgrade}
use cluster_api_provider_bri.Api.Cluster.{Machine}
use cluster_api_provider_bri.MachineController.Options.{MachineReconciler}
use cluster_api_provider_bri.MachineController.Upgrade.{
  upgrade_already_applied, mark_in_flight, stash_boot_id, note_version, mark_upgraded,
}
use cluster_api_provider_bri.MachineController.Upgrade.Reboot.{
  Site, Boots, upgraded_once, upgraded_by, IsDone, IsPolled, IsAfter,
}
use cluster_api_provider_bri.MachineController.Upgrade.Reboot.Once.{
  upgraded_once-issues, upgraded_once-waits, upgraded_once-completes, upgraded_once-rests,
  mark_upgraded-IsDone, mirrored-new, mirrored,
}

nat_cases : (k : ℕ) → (k ≡ 0) ⊎ ((j : ℕ) × (k ≡ suc j))
nat_cases zero = inl refl
nat_cases (suc j) = inr (j, refl)

reached : (P Q : Type 0) → (c : Bool) → c ≡ true → (if c then P else Q) → P
reached P Q c holds = rw (holds) (λ p. p)

missed : (P Q : Type 0) → (c : Bool) → c ≡ false → (if c then P else Q) → Q
missed P Q c fails = rw (fails) (λ q. q)

module _ (u : Util) (r : MachineReconciler) (cfg : String) (b : Boots) (n : ℕ)
    (owner : Machine) where
  module _ (v : String) (some_cfg : (cfg == "") ≡ false) (some_v : (v == "") ≡ false)
      (old : (b.old_id == "") ≡ false) (new : (b.new_id == "") ≡ false)
      (differ : (b.new_id == b.old_id) ≡ false) (version : (b.new_version == "") ≡ false) where
    issued-IsAfter :
        (w : Site)
        → w.machine.status.ready ≡ true
        → w.machine.spec.desired_talos_version ≡ some v
        → (w.machine.status.resolved_host == "") ≡ false
        → IsAfter u r cfg b n owner v 0 record w {
          machine = stash_boot_id b.old_id (mark_in_flight u b.old_version w.machine);
          away = n;
          issued = 1;
        }
    unfolding mark_in_flight stash_boot_id
    issued-IsAfter w ready wants holds = record {
      ready = ready;
      wants = wants;
      holds = holds;
      once = refl;
      stage = rw (not_before) (refl, refl, all_left);
    }
      where
        not_before : ltb n 0 ≡ false
        not_before = ground arith

        all_left : n ≡ n - 0
        all_left = ground arith

    rested-IsAfter :
        (k : ℕ) (w : Site)
        → ltb n k ≡ true
        → IsAfter u r cfg b n owner v k w
        → IsDone u r cfg b n owner v w
        → IsAfter u r cfg b n owner v (suc k) (upgraded_once u r cfg b n owner w)
    unfolding mark_upgraded
    rested-IsAfter k w late after_ done =
        rw
          (upgraded_once-rests u r cfg b n owner v some_cfg some_v old new differ version w
            after_.ready after_.wants after_.holds done)
          record {
            ready = after_.ready;
            wants = after_.wants;
            holds = after_.holds;
            once = after_.once;
            stage =
                rw (later) (mark_upgraded-IsDone u r cfg b n owner v w after_.wants done.3 done.4);
          }
      where
        later : ltb n (suc k) ≡ true
        later = ground (arith, late)

    waited-IsAfter :
        (k j : ℕ) (w : Site)
        → n - k ≡ suc j
        → IsAfter u r cfg b n owner v k w
        → IsPolled u r cfg b n owner k w
        → IsAfter u r cfg b n owner v (suc k) (upgraded_once u r cfg b n owner w)
    waited-IsAfter k j w left after_ (flying, boot, away) =
        let gone : w.away ≡ suc j = ground (arith, left, away) in
        let sooner : ltb n (suc k) ≡ false = ground (arith, left) in
        let rest : j ≡ n - suc k = ground (arith, left) in
        rw
          (upgraded_once-waits u r cfg b n owner v some_cfg some_v old new differ version j w
            after_.ready after_.wants flying boot gone)
          record {
            ready = after_.ready;
            wants = after_.wants;
            holds = after_.holds;
            once = after_.once;
            stage = rw (sooner) (flying, boot, rest);
          }

    completed-IsAfter :
        (k : ℕ) (w : Site)
        → n - k ≡ 0
        → IsAfter u r cfg b n owner v k w
        → IsPolled u r cfg b n owner k w
        → IsAfter u r cfg b n owner v (suc k) (upgraded_once u r cfg b n owner w)
    unfolding mark_upgraded note_version
    completed-IsAfter k w left after_ (flying, boot, away) =
        let gone : w.away ≡ 0 = ground (arith, left, away) in
        let later : ltb n (suc k) ≡ true = ground (arith, left) in
        let same = w.host.status.talos_version == b.new_version in
        rw
          (upgraded_once-completes u r cfg b n owner v some_cfg some_v old new differ version same w
            after_.ready after_.wants after_.holds after_.once flying boot gone refl)
          record {
            ready = after_.ready;
            wants = after_.wants;
            holds = after_.holds;
            once = after_.once;
            stage = rw (later) (
                mark_upgraded-IsDone u r cfg b n owner v
                  record w {
                    machine = note_version b.new_version w.machine;
                    host = mirrored u r cfg b n owner same w.host;
                  }
                  after_.wants refl (mirrored-new u r cfg b n owner same w.host refl));
          }

    upgraded_once-IsAfter :
        (k : ℕ) (w : Site)
        → IsAfter u r cfg b n owner v k w
        → IsAfter u r cfg b n owner v (suc k) (upgraded_once u r cfg b n owner w)
    upgraded_once-IsAfter k w after_ = elim (Bool-cases (ltb n k)) [
      | inl late ↦ rested-IsAfter k w late after_ (
          reached (IsDone u r cfg b n owner v w) (IsPolled u r cfg b n owner k w) (ltb n k) late
            after_.stage)
      | inr early ↦ elim (nat_cases (n - k)) [
        | inl left ↦ completed-IsAfter k w left after_ (
            missed (IsDone u r cfg b n owner v w) (IsPolled u r cfg b n owner k w) (ltb n k) early
              after_.stage)
        | inr (j, left) ↦ waited-IsAfter k j w left after_ (
            missed (IsDone u r cfg b n owner v w) (IsPolled u r cfg b n owner k w) (ltb n k) early
              after_.stage)
      ]
    ]

    -- On an API server that stores every write: if a Ready ByotMachine with a resolved host
    -- and no upgrade in flight wants an image that was not applied for its generation, its
    -- cluster has credentials, and its machine takes the upgrade, answers every probe and has
    -- a new boot id after n polls, where the image, the boot ids and the new version are not
    -- empty, then k polls after the reconcile that issues the upgrade exactly one upgrade was
    -- issued, the ByotMachine is Ready, it is in flight as long as k is at most n, and from
    -- then on it is not in flight, has the image recorded as applied for its generation, and
    -- has the new version, which its host has too.
    pub ensure_talos_version-completes :
        (k : ℕ) (w : Site)
        → w.machine.status.ready ≡ true
        → w.machine.spec.desired_talos_version ≡ some v
        → (w.machine.status.resolved_host == "") ≡ false
        → w.machine.status.upgrade_state ≡ no_upgrade
        → upgrade_already_applied w.machine v ≡ false
        → w.issued ≡ 0
        → IsAfter u r cfg b n owner v k (upgraded_by u r cfg b n owner (suc k) w)
    unfolding upgraded_by
    ensure_talos_version-completes zero w ready wants holds state_ fresh issued =
        rw
          (upgraded_once-issues u r cfg b n owner v some_cfg some_v old new differ version w ready
            wants state_ fresh issued)
          (issued-IsAfter w ready wants holds)
    ensure_talos_version-completes (suc k) w ready wants holds state_ fresh issued =
        upgraded_once-IsAfter k (upgraded_by u r cfg b n owner (suc k) w)
          (ensure_talos_version-completes k w ready wants holds state_ fresh issued)

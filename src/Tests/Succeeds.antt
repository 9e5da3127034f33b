-- ===== src/Tests/Succeeds.antt =====
-- An upgrade whose machine has rebooted after two polls.
use cluster_api_provider_bri.Prelude.{some, refl}
use cluster_api_provider_bri.Api.Host.{claimed}
use cluster_api_provider_bri.Api.Machine.{no_upgrade}
use cluster_api_provider_bri.MachineController.Upgrade.{upgrade_already_applied}
use cluster_api_provider_bri.MachineController.Upgrade.Reboot.{Site, Boots, IsAfter, upgraded_by}
use cluster_api_provider_bri.MachineController.Upgrade.Succeeds.{ensure_talos_version-completes}
use cluster_api_provider_bri.Tests.World.{util}
use cluster_api_provider_bri.Tests.Objects.{
  host_in, other_claim, upgrading_machine, worker, machine_reconciler,
}

abbrev boots : Boots
boots = record {
  old_id = "boot-1";
  new_id = "boot-2";
  old_version = "v1.8.0";
  new_version = "v1.9.0";
}

abbrev site : Site
site = record {
  machine = upgrading_machine no_upgrade;
  host = host_in claimed (some other_claim);
  away = 0;
  issued = 0;
}

ensure_talos_version-completes_example :
    IsAfter util machine_reconciler "cfg" boots 2 worker "installer:v1.9.0" 3
      (upgraded_by util machine_reconciler "cfg" boots 2 worker 4 site)
unfolding upgrade_already_applied
ensure_talos_version-completes_example =
    ensure_talos_version-completes util machine_reconciler "cfg" boots 2 worker "installer:v1.9.0"
      refl refl refl refl refl refl 3 site refl refl refl refl refl refl

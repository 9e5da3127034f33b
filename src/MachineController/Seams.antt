-- ===== src/MachineController/Seams.antt =====
-- What the ByotMachine controller calls on a Talos machine: the injectable functions of the
-- reconciler and those that pkg/controller/talos_apply.go defines over the Talos client. A
-- talosconfig is an opaque text; a nil one, which selects the maintenance client, is `none`.
use cluster_api_provider_bri.Prelude.{String, Bool, Option}
use cluster_api_provider_bri.Go.{CtrlResult}
use cluster_api_provider_bri.Go.Action.{M}
use cluster_api_provider_bri.Api.Machine.{ByotMachine}
use cluster_api_provider_bri.Endpoints.{Endpoints}

pub record MachineSeams (W : Type 0) : Type 0 where
  pub probe_maintenance : Endpoints → W → Bool × W
  pub probe_authenticated : Endpoints → String → W → Bool × W
  pub version_probe_authenticated : Endpoints → String → M W String
  pub upgrade_machine : Endpoints → String → String → M W String
  pub boot_id_authenticated : Endpoints → String → M W String
  pub reset_adopted_host : ByotMachine → M W (Unit {0})
  pub apply_machine_config : Endpoints → String → Option String → M W (Unit {0})
  pub reset_machine : Endpoints → Option String → M W (Unit {0})
  pub detect_system_disk : Endpoints → Option String → M W String
  pub service_running : Endpoints → Option String → String → M W Bool
  pub restart_service : Endpoints → Option String → String → M W (Unit {0})

-- A value, or the result to return while something is awaited (a non-nil *ctrl.Result).
pub data Awaited (A : Type 0) : Type 0 where
  wait : CtrlResult → Awaited A
  have : A → Awaited A

-- (ctrl.Result, handled): the machine too, as the call left it.
abbrev pub Handled : Type 0
Handled = CtrlResult × Bool × ByotMachine

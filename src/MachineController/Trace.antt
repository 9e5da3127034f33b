-- ===== src/MachineController/Trace.antt =====
-- Traces of the calls of the ByotMachine controller that change something outside the process, and
-- of the probes that allow them. A traced client answers as the one that it wraps, so a statement
-- about a trace holds whatever the API servers and the machines answer.
pub mod Keeps
pub mod Leads
use cluster_api_provider_bri.Prelude.{String, Bool, Option, List, [], ◌∷◌}
use cluster_api_provider_bri.Go.Action.{M, Result}
use cluster_api_provider_bri.Api.Machine.{ByotMachine}
use cluster_api_provider_bri.Api.Host.{ByotHost}
use cluster_api_provider_bri.Client.{HostClient, MachineClient}
use cluster_api_provider_bri.MachineController.Seams.{MachineSeams}

pub data Event : Type 0 where
  patched_machine : ByotMachine → Event
  updated_machine : ByotMachine → Event
  wrote_host : ByotHost → Event
  upgraded : String → Event
  reset_host : Event
  reset_with : Option String → Event
  in_maintenance : Bool → Event
  answered_to : String → Bool → Event
  applied : String → Option String → Event
  restarted : Event

-- The last event stands first.
abbrev pub Traced : Type 0 → Type 0
Traced W = W × List Event

module _ {W A : Type 0} where
  abbrev with_trace : Result A × W → List Event → Result A × Traced W
  with_trace (r, w) t = (r, (w, t))

  -- A call that leaves no event.
  abbrev pub quiet : M W A → M (Traced W) A
  quiet m (w, t) = with_trace (m w) t

  abbrev pub event : Event → M W A → M (Traced W) A
  event x m (w, t) = with_trace (m w) (x ∷ t)

  abbrev answer_with : A × W → List Event → A × Traced W
  answer_with (a, w) t = (a, (w, t))

  abbrev pub quiet_answer : (W → A × W) → Traced W → A × Traced W
  quiet_answer m (w, t) = answer_with (m w) t

  abbrev answer_event : (A → Event) → A × W → List Event → A × Traced W
  answer_event f (a, w) t = (a, (w, f a ∷ t))

  -- A probe, with its answer.
  abbrev pub noted_answer : (A → Event) → (W → A × W) → Traced W → A × Traced W
  noted_answer f m (w, t) = answer_event f (m w) t

abbrev pub traced_machines : {W : Type 0} → MachineClient W → MachineClient (Traced W)
traced_machines c = record {
  get_byot_machine = λ k. quiet (c.get_byot_machine k);
  update_byot_machine = λ m. event (updated_machine m) (c.update_byot_machine m);
  new_machine_helper = λ m. quiet (c.new_machine_helper m);
  patch_machine = λ b m. event (patched_machine m) (c.patch_machine b m);
  patch_machine_owned = λ b m o. event (patched_machine m) (c.patch_machine_owned b m o);
  ensure_machine_finalizer = λ m f. event (updated_machine m) (c.ensure_machine_finalizer m f);
  get_owner_machine = λ m. quiet (c.get_owner_machine m);
  get_machine = λ k. quiet (c.get_machine k);
  get_cluster = λ k. quiet (c.get_cluster k);
  get_secret = λ k. quiet (c.get_secret k);
  unix_nano = quiet_answer c.unix_nano;
}

abbrev pub traced_hosts : {W : Type 0} → HostClient W → HostClient (Traced W)
traced_hosts c = record {
  get_host = λ k. quiet (c.get_host k);
  list_hosts = λ n l. quiet (c.list_hosts n l);
  update_host = λ h. event (wrote_host h) (c.update_host h);
  update_host_status = λ h. event (wrote_host h) (c.update_host_status h);
  new_host_helper = λ h. quiet (c.new_host_helper h);
  patch_host = λ b h. event (wrote_host h) (c.patch_host b h);
  ensure_host_finalizer = λ h f. event (wrote_host h) (c.ensure_host_finalizer h f);
  parse_selector = λ l. quiet (c.parse_selector l);
  now = quiet_answer c.now;
}

abbrev pub traced_seams : {W : Type 0} → MachineSeams W → MachineSeams (Traced W)
traced_seams s = record {
  probe_maintenance = λ e. noted_answer in_maintenance (s.probe_maintenance e);
  probe_authenticated = λ e cfg. noted_answer (answered_to cfg) (s.probe_authenticated e cfg);
  version_probe_authenticated = λ e cfg. quiet (s.version_probe_authenticated e cfg);
  upgrade_machine = λ e cfg v. event (upgraded v) (s.upgrade_machine e cfg v);
  boot_id_authenticated = λ e cfg. quiet (s.boot_id_authenticated e cfg);
  reset_adopted_host = λ m. event reset_host (s.reset_adopted_host m);
  apply_machine_config = λ e c cfg. event (applied c cfg) (s.apply_machine_config e c cfg);
  reset_machine = λ e cfg. event (reset_with cfg) (s.reset_machine e cfg);
  detect_system_disk = λ e cfg. quiet (s.detect_system_disk e cfg);
  service_running = λ e cfg n. quiet (s.service_running e cfg n);
  restart_service = λ e cfg n. event restarted (s.restart_service e cfg n);
}

abbrev pub trace : {W A : Type 0} → Result A × Traced W → List Event
trace (r, (w, t)) = t

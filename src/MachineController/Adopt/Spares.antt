-- ===== src/MachineController/Adopt/Spares.antt =====
-- A worker whose cluster has no control plane ready is left alone by applyAndMarkAdopted of
-- pkg/controller/byotmachine_controller.go.
use cluster_api_provider_bri.Prelude.{
  String, Bool, true, false, Option, none, List, [], ◌≡◌, arith, any,
}
use cluster_api_provider_bri.Prelude.Dict.{lookup}
use cluster_api_provider_bri.Go.Action.{Result, ok, err, continue}
use cluster_api_provider_bri.Api.Meta.{Util, ObjectKey}
use cluster_api_provider_bri.Api.Machine.{ByotMachine}
use cluster_api_provider_bri.Api.Cluster.{
  Machine, Cluster, control_plane_label, control_plane_ready_condition,
}
use cluster_api_provider_bri.Client.{HostClient, MachineClient, WorkloadClient}
use cluster_api_provider_bri.Config.Codec.{YamlCodec}
use cluster_api_provider_bri.MachineController.Options.{MachineReconciler}
use cluster_api_provider_bri.MachineController.Seams.{MachineSeams, Awaited, wait, have}
use cluster_api_provider_bri.MachineController.Nodes.{LabelValidation}
use cluster_api_provider_bri.MachineController.Link.{WorkloadSeams}
use cluster_api_provider_bri.MachineController.Preflight.{ApplyAuth, resolve_apply_auth}
use cluster_api_provider_bri.MachineController.Adopt.{
  gate_and_apply, apply_and_mark_adopted, apply_with,
}
use cluster_api_provider_bri.MachineController.Trace.{
  Event, patched_machine, in_maintenance, answered_to, Traced, traced_machines, traced_hosts,
  traced_seams, trace,
}

-- Whether an event goes beyond a probe of the machine and a patch of a ByotMachine that is not Ready.
abbrev pub harms : Event → Bool
harms (patched_machine m) = m.status.ready
harms (in_maintenance answer) = false
harms (answered_to cfg answer) = false
harms _ = true

-- Whether a read of the Cluster says that its control plane is ready.
abbrev pub says_ready : Util → Result Cluster → Bool
says_ready u (ok cluster) = u.is_true cluster.conditions control_plane_ready_condition
says_ready u (err e) = false

module _ {W : Type 0} where
  abbrev Spares : Result (Awaited ApplyAuth) × Traced W → Type 0
  Spares (ok (have (cfg, bundle, m)), (w, t)) = (m.status.ready ≡ false) × (any harms t ≡ false)
  Spares (ok (wait res), (w, t)) = any harms t ≡ false
  Spares (err e, (w, t)) = any harms t ≡ false

resolve_apply_auth-Spares :
    {W : Type 0} (u : Util) (mc : MachineClient W) (s : MachineSeams W) (r : MachineReconciler)
    (helper m : ByotMachine) (machine : Machine) (w : W)
    → m.status.ready ≡ false
    → Spares (resolve_apply_auth u (traced_machines mc) (traced_seams s) r helper machine m (w, []))
unfolding resolve_apply_auth
resolve_apply_auth-Spares u mc s r helper m machine w new = grind arith

module _ {W C : Type 0} (u : Util) (hc : HostClient W) (mc : MachineClient W)
    (wc : WorkloadClient (Traced W) C) (ws : WorkloadSeams (Traced W) C) (v : LabelValidation)
    (y : YamlCodec) (s : MachineSeams W) (r : MachineReconciler) where
  gate_and_apply-harmless :
      (helper m : ByotMachine) (machine : Machine) (config hash : String) (cfg : Option String)
      (bundle : Bool) (w : W) (t : List Event)
      → m.status.ready ≡ false
      → lookup control_plane_label machine.meta.labels ≡ none
      → ((k : ObjectKey) (x : W) → says_ready u ((mc.get_cluster k x).0) ≡ false)
      → any harms t ≡ false
      → any harms (
          trace (
            gate_and_apply u
              (traced_hosts hc)
              (traced_machines mc)
              wc
              ws
              v
              y
              (traced_seams s)
              r
              helper
              machine
              config
              hash
              cfg
              bundle
              m
              (w, t)))
        ≡ false
  unfolding gate_and_apply
  gate_and_apply-harmless helper m machine config hash cfg bundle w t new worker waiting before =
      grind (arith, waiting)

  apply_with-harmless :
      (helper : ByotMachine) (machine : Machine) (config hash : String)
      (auth : Result (Awaited ApplyAuth) × Traced W)
      → lookup control_plane_label machine.meta.labels ≡ none
      → ((k : ObjectKey) (x : W) → says_ready u ((mc.get_cluster k x).0) ≡ false)
      → Spares auth
      → any harms (
          trace (
            continue auth (
              apply_with u
                (traced_hosts hc)
                (traced_machines mc)
                wc
                ws
                v
                y
                (traced_seams s)
                r
                helper
                machine
                config
                hash)))
        ≡ false
  unfolding gate_and_apply
  apply_with-harmless helper machine config hash (ok (have (cfg, bundle, m)), (w, t)) worker waiting
        p =
      gate_and_apply-harmless helper m machine config hash cfg bundle w t p.0 worker waiting p.1
  apply_with-harmless helper machine config hash (ok (wait res), (w, t)) worker waiting p = p
  apply_with-harmless helper machine config hash (err e, (w, t)) worker waiting p = p

  -- Whatever else the API servers and the machine answer: as long as no read of the Cluster says that
  -- its control plane is ready, applyAndMarkAdopted of a worker that is not Ready does nothing but
  -- probe the machine and patch the ByotMachine, which is not Ready in any patch. So no
  -- configuration is applied to it, whatever its credentials are.
  pub apply_and_mark_adopted-waits :
      (helper m : ByotMachine) (machine : Machine) (config hash : String) (w : W)
      → m.status.ready ≡ false
      → lookup control_plane_label machine.meta.labels ≡ none
      → ((k : ObjectKey) (x : W) → says_ready u ((mc.get_cluster k x).0) ≡ false)
      → any harms (
          trace (
            apply_and_mark_adopted u
              (traced_hosts hc)
              (traced_machines mc)
              wc
              ws
              v
              y
              (traced_seams s)
              r
              helper
              machine
              config
              hash
              m
              (w, [])))
        ≡ false
  unfolding apply_and_mark_adopted
  apply_and_mark_adopted-waits helper m machine config hash w new worker waiting =
      apply_with-harmless helper machine config hash _ worker waiting
        (resolve_apply_auth-Spares u mc s r helper m machine w new)

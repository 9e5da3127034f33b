-- ===== src/MachineController/Link/Quiet.antt =====
-- The patches of ensureNodeLinked against the watch predicate of the controller
-- (pkg/controller/byotmachine_controller.go).
use cluster_api_provider_bri.Prelude.{
  String, Bool, true, false, not, some, [], ◌≡◌, refl, arith, ◌==◌, eq_iff, any,
}
use cluster_api_provider_bri.Prelude.Dict.{lookup-insert, lookup-keep_keys}
use cluster_api_provider_bri.Prelude.Dict.Distinct.{
  HasDistinctKeys, insert-HasDistinctKeys, keep-HasDistinctKeys,
}
use cluster_api_provider_bri.Api.Meta.{ObjectMeta}
use cluster_api_provider_bri.Api.Machine.{ByotMachine}
use cluster_api_provider_bri.Api.Cluster.{Machine}
use cluster_api_provider_bri.Client.{HostClient, MachineClient, WorkloadClient}
use cluster_api_provider_bri.MachineController.Options.{MachineReconciler}
use cluster_api_provider_bri.MachineController.Nodes.{LabelValidation}
use cluster_api_provider_bri.MachineController.Watch.{
  node_link_retrigger_annotation, self_filter_update, self_filter, updated,
}
use cluster_api_provider_bri.MachineController.Watch.SelfFilter.{self_filter_update-false}
use cluster_api_provider_bri.MachineController.Trace.{
  Event, Traced, traced_hosts, patched_machine, traced_machines, trace,
}
use cluster_api_provider_bri.MachineController.Link.{
  WorkloadSeams, clear_retrigger, bump_retrigger, link_or_retrigger, ensure_node_linked,
}

bump_retrigger-dropped :
    (now : String) (m : ByotMachine)
    → HasDistinctKeys m.meta.annotations
    → self_filter_update (some m.meta) (some (bump_retrigger now m).meta) ≡ false
unfolding bump_retrigger
bump_retrigger-dropped now m d =
    let a = m.meta.annotations in
    (self_filter_update-false m.meta (bump_retrigger now m).meta d
        (insert-HasDistinctKeys node_link_retrigger_annotation now a d)).1
      (
        refl,
        λ k ne. ground (
          arith,
          lookup-insert node_link_retrigger_annotation k now a,
          eq_iff node_link_retrigger_annotation k,
        ),
      )

clear_retrigger-dropped :
    (m : ByotMachine)
    → HasDistinctKeys m.meta.annotations
    → self_filter_update (some m.meta) (some (clear_retrigger m).meta) ≡ false
unfolding clear_retrigger
clear_retrigger-dropped m d =
    let a = m.meta.annotations in
    (self_filter_update-false m.meta (clear_retrigger m).meta d
        (keep-HasDistinctKeys (λ k v. not (k == node_link_retrigger_annotation)) a d)).1
      (
        refl,
        λ k ne. ground (
          arith,
          lookup-keep_keys (λ j. not (j == node_link_retrigger_annotation)) k a,
          eq_iff k node_link_retrigger_annotation,
        ),
      )

-- Whether a call wakes the controller again: a patch whose update event the watch predicate lets
-- through, and every call that is not a patch of the ByotMachine.
unfoldable pub wakes : ObjectMeta → Event → Bool
unfolding self_filter
wakes old (patched_machine m) = self_filter (updated (some old) (some m.meta))
wakes old _ = true

-- Whatever the API server answers: if the annotations of a ByotMachine have no key twice, every call
-- of ensureNodeLinked that changes something is a patch of the ByotMachine whose update event
-- nodeLinkRetriggerSelfFilter drops, so that it does not wake the controller again.
pub ensure_node_linked-quiet :
    {W C : Type 0} (hc : HostClient W) (mc : MachineClient W) (wc : WorkloadClient (Traced W) C)
    (ws : WorkloadSeams (Traced W) C) (v : LabelValidation) (r : MachineReconciler)
    (helper m : ByotMachine) (machine : Machine) (w : W)
    → HasDistinctKeys m.meta.annotations
    → any (wakes m.meta) (
        trace (
          ensure_node_linked
            (traced_hosts hc)
            (traced_machines mc)
            wc
            ws
            v
            r
            helper
            m
            machine
            (w, [])))
      ≡ false
unfolding ensure_node_linked link_or_retrigger wakes
ensure_node_linked-quiet hc mc wc ws v r helper m machine w d =
    grind (arith, clear_retrigger-dropped m d, λ (now : String). bump_retrigger-dropped now m d)

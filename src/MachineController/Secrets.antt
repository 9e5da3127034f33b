-- ===== src/MachineController/Secrets.antt =====
-- bootstrapData, adoptionInputs, clusterTalosConfig, referencedTalosConfig and
-- awaitClusterTalosConfig of pkg/controller/byotmachine_controller.go. The bytes of a secret are a
-- text, and `len(data) == 0` is equality with the empty one.
use Prim.Native.String.{◌++◌}
use cluster_api_provider_bri.Prelude.{String, Option, none, some, ◌==◌, if◌then◌else◌}
use cluster_api_provider_bri.Prelude.Dict.{lookup}
use cluster_api_provider_bri.Go.{
  Err, after, bootstrap_data_not_ready, bootstrap_data_empty, cluster_talos_config_not_ready,
  is_not_found, is_bootstrap_data_not_ready, is_talos_config_not_ready, wrap,
}
use cluster_api_provider_bri.Go.Action.{M, handle, pure, raise, wrap_err, ◌>>=◌}
use cluster_api_provider_bri.Api.Meta.{ObjectKey}
use cluster_api_provider_bri.Api.Machine.{ByotMachine}
use cluster_api_provider_bri.Api.Cluster.{Machine, Secret}
use cluster_api_provider_bri.Client.{MachineClient}
use cluster_api_provider_bri.MachineController.Options.{MachineReconciler, requeue_after_bootstrap}
use cluster_api_provider_bri.MachineController.Seams.{Awaited, wait, have}

-- secret.Data[key], where it is there and not empty.
abbrev non_empty : Option String → Option String
non_empty none = none
non_empty (some data_) = if data_ == "" then none else some data_

unfoldable pub secret_value : String → Secret → Option String
unfolding lookup
secret_value key s = non_empty (lookup key s.entries)

module _ {W : Type 0} (mc : MachineClient W) where
  abbrev or_raise : Err → Option String → M W String
  or_raise e none = raise e
  or_raise e (some data_) = pure data_

  unfoldable pub bootstrap_secret : ObjectKey → M W String
  unfolding secret_value
  bootstrap_secret key =
      handle (mc.get_secret key)
        (λ e.
          if is_not_found e
          then raise bootstrap_data_not_ready
          else raise (wrap "failed to get bootstrap secret" e))
        λ s. or_raise bootstrap_data_empty (secret_value "value" s)

  abbrev bootstrap_named : Option String → String → M W String
  bootstrap_named none namespace = raise bootstrap_data_not_ready
  bootstrap_named (some name) namespace =
      bootstrap_secret (record { namespace = namespace; name = name })

  unfoldable pub bootstrap_data : Machine → M W String
  unfolding bootstrap_secret
  bootstrap_data m = bootstrap_named m.data_secret_name m.meta.namespace

  unfoldable pub referenced_talos_config : String → String → M W String
  unfolding secret_value
  referenced_talos_config name namespace =
      handle (mc.get_secret (record { namespace = namespace; name = name }))
        (λ e.
          if is_not_found e
          then raise cluster_talos_config_not_ready
          else raise (wrap "failed to get talosconfig secret" e))
        λ s. or_raise cluster_talos_config_not_ready (secret_value "talosconfig" s)

  unfoldable pub cluster_talos_config : String → String → M W String
  unfolding referenced_talos_config
  cluster_talos_config cluster_name namespace =
      referenced_talos_config (cluster_name ++ "-talosconfig") namespace

module _ {W : Type 0} (mc : MachineClient W) (r : MachineReconciler) where
  unfoldable pub await_cluster_talos_config : String → ByotMachine → M W (Awaited String)
  unfolding cluster_talos_config requeue_after_bootstrap
  await_cluster_talos_config cluster_name m =
      handle (cluster_talos_config mc cluster_name m.meta.namespace)
        (λ e.
          if is_talos_config_not_ready e
          then pure (wait (after (requeue_after_bootstrap r)))
          else raise e)
        λ cfg. pure (have cfg)

  abbrev with_owner : Option Machine → M W (Awaited (Machine × String))
  with_owner none = pure (wait (after (requeue_after_bootstrap r)))
  with_owner (some machine) =
      handle (bootstrap_data mc machine)
        (λ e.
          if is_bootstrap_data_not_ready e
          then pure (wait (after (requeue_after_bootstrap r)))
          else raise e)
        λ data_. pure (have (machine, data_))

  unfoldable pub adoption_inputs : ByotMachine → M W (Awaited (Machine × String))
  unfolding bootstrap_data requeue_after_bootstrap
  adoption_inputs m = do
    owner ← wrap_err "failed to get owner Machine" (mc.get_owner_machine m)
    with_owner owner

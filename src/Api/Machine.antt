-- ===== src/Api/Machine.antt =====
-- api/v1alpha1/byotmachine_types.go: one machine of a cluster, and the host that it has claimed.
use cluster_api_provider_bri.Prelude.{ℕ, String, Bool, Option, List}
use cluster_api_provider_bri.Prelude.Int.{ℤ}
use cluster_api_provider_bri.Prelude.Dict.{Dict}
use cluster_api_provider_bri.Api.Meta.{ObjectMeta, Conditions}

abbrev pub provider_id_prefix : String
provider_id_prefix = "byot://"

-- UpgradeState is a string: `no_upgrade` is the empty one, `unknown_upgrade` any other.
pub data UpgradeState : Type 0 where
  no_upgrade in_flight failed : UpgradeState
  unknown_upgrade : String → UpgradeState

-- metav1.LabelSelector: the matchLabels, and the matchExpressions as key, operator and values.
pub record LabelSelector : Type 0 where
  pub match_labels : Dict String
  pub match_expressions : List (String × String × List String)

pub record ByotMachineSpec : Type 0 where
  pub host_ref : Option String
  pub host_selector : Option LabelSelector
  pub talos_config_secret_ref : Option String
  pub provider_id : Option String
  pub failure_domain : Option String
  pub desired_talos_version : Option String
  pub install_disk : Option String

pub data AddressType : Type 0 where
  external_ip internal_ip : AddressType

pub record ByotMachineStatus : Type 0 where
  pub ready : Bool
  pub resolved_host : String
  pub resolved_public_ip : String
  pub resolved_internal_ip : String
  pub last_applied_config_sha : String
  pub last_reset_at : Option ℕ
  pub node_updated : Bool
  pub addresses : List (AddressType × String)
  pub conditions : Conditions
  pub current_talos_version : String
  pub upgrade_state : UpgradeState
  pub upgrade_probe_failures : ℤ
  pub upgrade_attempt_generation : ℤ
  pub upgrade_applied_image_ref : String
  pub upgrade_pre_reboot_boot_id : String

pub record ByotMachine : Type 0 where
  pub meta : ObjectMeta
  pub spec : ByotMachineSpec
  pub status : ByotMachineStatus

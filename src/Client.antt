-- ===== src/Client.antt =====
-- What the controllers call and the repository does not implement: the API server through
-- controller-runtime's client, cluster-api's patch helper and finalizer helper, and the clock.
-- An answer is an argument of the model; the world behind it may change between two calls in any
-- way, so nothing is assumed of it here.
pub mod Journal
use cluster_api_provider_bri.Prelude.{ℕ, String, Bool, Option, List}
use cluster_api_provider_bri.Go.Action.{M}
use cluster_api_provider_bri.Api.Meta.{ObjectKey, Util}
use cluster_api_provider_bri.Api.Host.{ByotHost}
use cluster_api_provider_bri.Api.Machine.{ByotMachine, LabelSelector}
use cluster_api_provider_bri.Api.Cluster.{Machine, Cluster, Secret, Node}

-- The calls on ByotHosts. A patch helper is the snapshot of the object that it was made from, and
-- a patch sends the difference between that snapshot and the object.
pub record HostClient (W : Type 0) : Type 0 where
  pub get_host : ObjectKey → M W ByotHost
  pub list_hosts : String → Option LabelSelector → M W (List ByotHost)
  pub update_host : ByotHost → M W ByotHost  -- Client.Update; returns the object as stored
  pub update_host_status : ByotHost → M W ByotHost  -- Client.Status().Update
  pub new_host_helper : ByotHost → M W ByotHost  -- patch.NewHelper
  pub patch_host : ByotHost → ByotHost → M W (Unit {0})  -- helper.Patch
  pub ensure_host_finalizer : ByotHost → String → M W ByotHost  -- finalizers.EnsureFinalizer
  -- metav1.LabelSelectorAsSelector, which refuses malformed expressions
  pub parse_selector : Option LabelSelector → M W (Option LabelSelector)
  pub now : W → ℕ × W

-- The calls on ByotMachines and on the objects around them.
pub record MachineClient (W : Type 0) : Type 0 where
  pub get_byot_machine : ObjectKey → M W ByotMachine
  pub update_byot_machine : ByotMachine → M W ByotMachine
  pub new_machine_helper : ByotMachine → M W ByotMachine
  pub patch_machine : ByotMachine → ByotMachine → M W (Unit {0})
  -- the same with patch.WithOwnedConditions
  pub patch_machine_owned : ByotMachine → ByotMachine → List String → M W (Unit {0})
  pub ensure_machine_finalizer : ByotMachine → String → M W ByotMachine
  pub get_owner_machine : ByotMachine → M W (Option Machine)  -- util.GetOwnerMachine
  pub get_machine : ObjectKey → M W Machine
  pub get_cluster : ObjectKey → M W Cluster
  pub get_secret : ObjectKey → M W Secret
  pub unix_nano : W → String × W  -- the time, printed in decimal

-- The workload cluster: `C` is a client of it.
pub record WorkloadClient (W C : Type 0) : Type 0 where
  pub get_node : C → String → M W Node
  pub new_node_helper : C → Node → M W Node
  pub patch_node : C → Node → Node → M W (Unit {0})

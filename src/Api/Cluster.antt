-- ===== src/Api/Cluster.antt =====
-- The parts of objects of other projects that the controllers read: cluster-api's Machine and
-- Cluster, Kubernetes' Secret and Node.
use cluster_api_provider_bri.Prelude.{String, Bool, Option, List}
use cluster_api_provider_bri.Prelude.Dict.{Dict}
use cluster_api_provider_bri.Api.Meta.{ObjectMeta, Conditions}

-- clusterv1.Machine
pub record Machine : Type 0 where
  pub meta : ObjectMeta
  pub cluster_name : String
  pub data_secret_name : Option String
  pub has_node_ref : Bool

-- clusterv1.Cluster
pub record Cluster : Type 0 where
  pub meta : ObjectMeta
  pub conditions : Conditions

-- corev1.Secret; the bytes of a value are an opaque text, of which only emptiness is tested
pub record Secret : Type 0 where
  pub entries : Dict String

pub record Taint : Type 0 where
  pub key : String
  pub value : String
  pub effect : String

-- corev1.Node
pub record Node : Type 0 where
  pub meta : ObjectMeta
  pub provider_id : String
  pub taints : List Taint

abbrev pub control_plane_label : String
control_plane_label = "cluster.x-k8s.io/control-plane"

abbrev pub control_plane_ready_condition : String
control_plane_ready_condition = "ControlPlaneReady"

abbrev pub uninitialized_taint : String
uninitialized_taint = "node.cloudprovider.kubernetes.io/uninitialized"

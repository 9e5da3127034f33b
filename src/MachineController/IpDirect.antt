-- ===== src/MachineController/IpDirect.antt =====
-- The client of the workload cluster that skips DNS: buildIPDirectClient of
-- pkg/controller/byotmachine_controller.go, and the fields of the reconciler that
-- resolveWorkloadClient reads. The kubeconfig secret, the parsers and the client are arguments;
-- `K` is what a REST config has besides its host, `P` what a URL has besides its host.
pub mod Target
use cluster_api_provider_bri.Prelude.{
  String, Bool, true, false, not, Option, none, some, ◌==◌, if◌then◌else◌, ◌≡◌, refl, ◌||◌, arith,
}
use cluster_api_provider_bri.Prelude.HostPort.{
  has_colon, is_bracketed, port_of, hostname_of, join_host_port,
}
use cluster_api_provider_bri.Prelude.HostPort.Joined.{
  port_of-digits, port_of-join, hostname_of-join, port_of-alone, hostname_of-alone,
}
use cluster_api_provider_bri.Go.{
  Err, wrap, is_not_found, is_cluster_not_connected, requeue_kubeconfig_pending,
}
use cluster_api_provider_bri.Go.Action.{
  M, Result, ok, err, handle, branch, pure, raise, lift, wrap_err, ◌>>=◌,
}
use cluster_api_provider_bri.Api.Meta.{ObjectKey}
use cluster_api_provider_bri.Api.Machine.{ByotMachine}
use cluster_api_provider_bri.MachineController.Link.{WorkloadSeams, resolve_workload_client}

pub record RestConfig (K : Type 0) : Type 0 where
  pub host : String
  pub rest : K

pub record Url (P : Type 0) : Type 0 where
  pub host : String
  pub rest : P

pub record IpDirect (W C K P : Type 0) : Type 0 where
  pub kubeconfig_from_secret : ObjectKey → M W String
  pub rest_config_from_kube_config : String → Result (RestConfig K)
  pub parse_url : String → Result (Url P)
  pub url_string : Url P → String
  pub new_client : RestConfig K → M W C

-- The host of the server URL, with the address in place of the name and the port kept.
unfoldable pub host_with_port : String → String → String
unfolding join_host_port
host_with_port ip port = if not (port == "") then join_host_port ip port else ip

unfoldable pub replace_host : String → String → String
unfolding port_of host_with_port
replace_host ip host = host_with_port ip (port_of host)

module _ {W C K P : Type 0} (d : IpDirect W C K P) where
  -- The REST config with the host of its server replaced.
  unfoldable pub direct_config : String → RestConfig K → Url P → RestConfig K
  unfolding replace_host
  direct_config ip config server = record config {
    host = d.url_string (record server { host = replace_host ip server.host });
  }

  unfoldable pub build_ip_direct_client : ObjectKey → ByotMachine → M W C
  unfolding direct_config
  build_ip_direct_client key m = do
    kubeconfig ← wrap_err "kubeconfig secret not available" (d.kubeconfig_from_secret key)
    config ←
        wrap_err "failed to parse kubeconfig" (lift (d.rest_config_from_kube_config kubeconfig))
    server ← wrap_err "failed to parse server URL" (lift (d.parse_url config.host))
    d.new_client (direct_config m.status.resolved_public_ip config server)

  -- `ipDirect := r.ipDirectClient; if ipDirect == nil { ipDirect = r.buildIPDirectClient }`
  abbrev pub or_build : Option (ObjectKey → ByotMachine → M W C) → ObjectKey → ByotMachine → M W C
  unfolding build_ip_direct_client
  or_build none = build_ip_direct_client
  or_build (some seam) = seam

  unfoldable pub workload_seams :
      Option (ObjectKey → M W C) → Option (ObjectKey → ByotMachine → M W C) → WorkloadSeams W C
  workload_seams get seam = record { get_workload_client = get; ip_direct_client = or_build seam }

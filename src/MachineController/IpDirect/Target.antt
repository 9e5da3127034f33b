-- ===== src/MachineController/IpDirect/Target.antt =====
-- Which server the client of buildIPDirectClient talks to (pkg/controller/byotmachine_controller.go).
use cluster_api_provider_bri.Prelude.{
  String, Bool, true, false, not, ◌&&◌, none, some, ◌==◌, if◌then◌else◌, ◌≡◌, refl, ◌||◌, sym, ◌∙◌,
  arith, eq_iff,
}
use cluster_api_provider_bri.Prelude.Text.{all_digits}
use cluster_api_provider_bri.Prelude.HostPort.{
  has_colon, is_bracketed, port_of, hostname_of, join_host_port,
}
use cluster_api_provider_bri.Prelude.HostPort.Joined.{
  port_of-digits, port_of-join, hostname_of-join, port_of-alone, hostname_of-alone,
}
use cluster_api_provider_bri.Go.{
  Err, wrap, is_not_found, is_cluster_not_connected, requeue_kubeconfig_pending,
}
use cluster_api_provider_bri.Go.Action.{M, Result, ok, err, branch, pure, raise}
use cluster_api_provider_bri.Api.Meta.{ObjectKey}
use cluster_api_provider_bri.Api.Machine.{ByotMachine}
use cluster_api_provider_bri.MachineController.Link.{WorkloadSeams, resolve_workload_client}
use cluster_api_provider_bri.MachineController.IpDirect.{
  RestConfig, Url, IpDirect, host_with_port, replace_host, direct_config, build_ip_direct_client,
  workload_seams,
}

-- The address that replaces the hostname of a server has no brackets of its own, and no colon
-- where the server has no port.
abbrev pub replaceable : String → String → Bool
replaceable ip host = not (is_bracketed ip) && (not (port_of host == "") || not (has_colon ip))

host_with_port-target :
    (ip port : String)
    → is_bracketed ip ≡ false
    → all_digits port ≡ true
    → (not (port == "") || not (has_colon ip)) ≡ true
    → (hostname_of (host_with_port ip port) ≡ ip) × (port_of (host_with_port ip port) ≡ port)
unfolding host_with_port
host_with_port-target ip port plain digits fits = of_test (port == "") refl
  where
    of_test :
        (b : Bool)
        → (port == "") ≡ b
        → (hostname_of (if not b then join_host_port ip port else ip) ≡ ip)
          × (port_of (if not b then join_host_port ip port else ip) ≡ port)
    of_test true e =
        let alone : has_colon ip ≡ false = ground arith in
        (hostname_of-alone ip plain alone, port_of-alone ip alone ∙ sym ((eq_iff port "").0 e))
    of_test false e = (hostname_of-join ip port plain digits, port_of-join ip port digits)

replace_host-target :
    (ip host : String)
    → replaceable ip host ≡ true
    → (hostname_of (replace_host ip host) ≡ ip) × (port_of (replace_host ip host) ≡ port_of host)
unfolding replace_host
replace_host-target ip host fits =
    host_with_port-target ip (port_of host) (ground arith) (port_of-digits host) (ground arith)

module _ {W C K P : Type 0} (d : IpDirect W C K P) where
  -- What resolveWorkloadClient answers when the client of the kubeconfig is made, or is not.
  abbrev pub resolved : Result C × W → Result C × W
  resolved r =
      branch r
        (λ f.
          if is_not_found f
          then raise requeue_kubeconfig_pending
          else raise (wrap "failed to build IP-direct client" f))
        pure

  abbrev pub seams : (ObjectKey → M W C) → WorkloadSeams W C
  unfolding workload_seams
  seams get = workload_seams d (some get) none

  -- If ClusterCache is not connected to the cluster, the kubeconfig secret can be read, it and the
  -- URL of its server parse, and the resolved public IP has no brackets of its own, and no colon
  -- where the server has no port, then resolveWorkloadClient makes the client of the kubeconfig with
  -- the URL of the server printed with another host: its hostname is the resolved public IP, and its
  -- port is the one of the kubeconfig.
  pub resolve_workload_client-target :
      (get : ObjectKey → M W C) (key : ObjectKey) (m : ByotMachine) (w w₁ w₂ : W) (e : Err)
      (kubeconfig : String) (config : RestConfig K) (server : Url P)
      → get key w ≡ (err e, w₁)
      → is_cluster_not_connected e ≡ true
      → d.kubeconfig_from_secret key w₁ ≡ (ok kubeconfig, w₂)
      → d.rest_config_from_kube_config kubeconfig ≡ ok config
      → d.parse_url config.host ≡ ok server
      → replaceable m.status.resolved_public_ip server.host ≡ true
      → let host = replace_host m.status.resolved_public_ip server.host in
        (resolve_workload_client (seams get) get key m w
          ≡ resolved (
              d.new_client
                (record config { host = d.url_string (record server { host = host }) })
                w₂))
        × (hostname_of host ≡ m.status.resolved_public_ip)
        × (port_of host ≡ port_of server.host)
  unfolding resolve_workload_client build_ip_direct_client direct_config workload_seams
  resolve_workload_client-target get key m w w₁ w₂ e kubeconfig config server refused offline read
        parsed located fits =
      let target = replace_host-target m.status.resolved_public_ip server.host fits in
      (rw (refused, offline, read, parsed, located) refl, target.0, target.1)

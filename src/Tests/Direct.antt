-- ===== src/Tests/Direct.antt =====
-- The IP-direct client at a kubeconfig whose server name does not resolve.
use Prim.Native.String.{◌++◌}
use cluster_api_provider_bri.Prelude.{String, ℕ, [], ◌≡◌, refl}
use cluster_api_provider_bri.Prelude.HostPort.{is_bracketed, hostname_of, port_of}
use cluster_api_provider_bri.Go.{cluster_not_connected}
use cluster_api_provider_bri.Go.Action.{M, ok, raise, pure}
use cluster_api_provider_bri.Api.Meta.{ObjectKey}
use cluster_api_provider_bri.Tests.Objects.{holding_machine}
use cluster_api_provider_bri.MachineController.Link.{resolve_workload_client}
use cluster_api_provider_bri.MachineController.IpDirect.{IpDirect, replace_host}
use cluster_api_provider_bri.MachineController.IpDirect.Target.{
  seams, resolve_workload_client-target,
}

-- A client is the address that it was made for; the world counts the calls of new_client.
abbrev direct : IpDirect ℕ String String String
direct = record {
  kubeconfig_from_secret = λ key. pure "kubeconfig";
  rest_config_from_kube_config =
      λ text. ok (record { host = "https://api.example.io:6443"; rest = text });
  parse_url = λ text. ok (record { host = "api.example.io:6443"; rest = "https://" });
  url_string = λ url. url.rest ++ url.host;
  new_client = λ config n. (ok config.host, n);
}

abbrev offline_cache : ObjectKey → M ℕ String
offline_cache key = raise cluster_not_connected

abbrev cluster : ObjectKey
cluster = record { namespace = "default"; name = "prod" }

resolve_workload_client-target_example :
    (resolve_workload_client
        (seams direct offline_cache)
        offline_cache
        cluster
        (holding_machine [])
        0
      ≡ (ok "https://203.0.113.7:6443", 0))
    × (hostname_of (replace_host "203.0.113.7" "api.example.io:6443") ≡ "203.0.113.7")
    × (port_of (replace_host "203.0.113.7" "api.example.io:6443") ≡ "6443")
unfolding is_bracketed port_of replace_host
resolve_workload_client-target_example =
    resolve_workload_client-target direct offline_cache cluster (holding_machine []) 0 0 0
      cluster_not_connected "kubeconfig"
      (record { host = "https://api.example.io:6443"; rest = "kubeconfig" })
      (record { host = "api.example.io:6443"; rest = "https://" }) refl refl refl refl refl refl

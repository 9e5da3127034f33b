-- ===== src/Tests/Discovery.antt =====
-- Runs of discovery: the addresses of a host, and a machine whose COSI state does not answer.
use cluster_api_provider_bri.Prelude.{
  Bool, true, false, none, some, [], List, ◌∷◌, ◌≡◌, refl, String,
}
use cluster_api_provider_bri.Go.{other}
use cluster_api_provider_bri.Go.Action.{ok, raise}
use cluster_api_provider_bri.Discovery.Addresses.{AddressStatus, discover_addresses, is_rfc1918}
use cluster_api_provider_bri.Discovery.Addresses.Choice.{discover_addresses-choice}
use cluster_api_provider_bri.Discovery.Run.{DiscoveryClient, discover_host}
use cluster_api_provider_bri.Discovery.Run.Complete.{is_ok, discover_host-succeeds}
use cluster_api_provider_bri.Tests.Small.{talos, complete_stream}

abbrev address_on : String → String → AddressStatus
address_on link ip = record { inet4 = true; link_scope = false; link_name = link; address = ip }

-- lo is skipped, 203.0.113.7 is the public IP, and 10.0.0.5 comes before 192.168.0.9.
abbrev addresses : List AddressStatus
addresses =
    address_on "lo" "10.9.9.9"
    ∷ address_on "eth0" "203.0.113.7"
    ∷ address_on "eth1" "10.0.0.5"
    ∷ address_on "eth2" "192.168.0.9"
    ∷ []

discover_addresses-choice_example :
    discover_addresses "203.0.113.7" (some addresses) ≡ ("203.0.113.7", "10.0.0.5")
unfolding is_rfc1918
discover_addresses-choice_example = discover_addresses-choice "203.0.113.7" addresses

abbrev without_cosi : DiscoveryClient Bool String
without_cosi = record {
  version = λ c w. (ok (some (record { tag = "v1.9.0"; arch = "amd64" }) ∷ []), w);
  memory = λ c w. (ok (some 1048576 ∷ []), w);
  ls = λ c d w. (
    ok (record {
      received = some (record { relative_name = "eth0"; name = "" }) ∷ [];
      failure = none;
    }),
    w,
  );
  processors = λ c. raise (other "no COSI");
  pci_devices = λ c. raise (other "no COSI");
  kernel_cmdline = λ c. raise (other "no COSI");
  address_statuses = λ c. raise (other "no COSI");
  system_information = λ c. raise (other "no COSI");
  first_hardware_addr = λ c. raise (other "no COSI");
}

discover_host-succeeds_example :
    is_ok (discover_host (talos complete_stream) without_cosi ("10.0.0.2" ∷ []) "10.0.0.2" false)
    ≡ true
discover_host-succeeds_example =
    discover_host-succeeds (talos complete_stream) without_cosi ("10.0.0.2" ∷ []) "10.0.0.2"
      (λ w. refl) (λ c w. refl) (λ c w. refl) (λ c w. refl) (λ c w. refl) false

-- ===== src/Endpoints.antt =====
-- buildEndpoints, machineEndpoints, hostEndpoints (pkg/controller/byotmachine_controller.go) and
-- hostInternalIP (pkg/controller/claim.go): the addresses that a Talos client tries in turn.
use cluster_api_provider_bri.Prelude.{
  String, Option, none, some, List, [], ◌∷◌, ◌++◌, ◌!=◌, if◌then◌else◌,
}
use cluster_api_provider_bri.Api.Host.{ByotHost, HostHardware}
use cluster_api_provider_bri.Api.Machine.{ByotMachine}

abbrev pub Endpoints : Type 0
Endpoints = List String

unfoldable pub build_endpoints : String → String → Endpoints
build_endpoints internal_ip public_ip =
    (if internal_ip != "" then internal_ip ∷ [] else [])
    ++ (if public_ip != "" then public_ip ∷ [] else [])

unfoldable pub machine_endpoints : ByotMachine → Endpoints
unfolding build_endpoints
machine_endpoints m = build_endpoints m.status.resolved_internal_ip m.status.resolved_public_ip

abbrev internal_ip_of : Option HostHardware → String
internal_ip_of none = ""
internal_ip_of (some hw) = hw.internal_ip

unfoldable pub host_internal_ip : ByotHost → String
host_internal_ip h = internal_ip_of h.status.hardware

unfoldable pub host_endpoints : ByotHost → Endpoints
unfolding build_endpoints host_internal_ip
host_endpoints h = build_endpoints (host_internal_ip h) h.spec.public_ip

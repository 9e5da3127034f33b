-- ===== src/Registry/Refines.antt =====
-- The code's writes are steps of the registry: reconcileHost of
-- pkg/controller/byothost_controller.go, claimCAS and releaseHost of pkg/controller/claim.go.
use cluster_api_provider_bri.Api.Meta.{Util}
use cluster_api_provider_bri.Api.Host.{ByotHost}
use cluster_api_provider_bri.Client.Journal.{
  HostWrite, patched, updated, status_updated, finalizer_ensured,
}
use cluster_api_provider_bri.Registry.{Write}

-- What is stored in place of `h` is the result of a write of the registry.
abbrev pub IsWriteOn : Util → ByotHost → HostWrite → Type 0
IsWriteOn u h (patched b g) = Write u h g
IsWriteOn u h (updated g) = Write u h g
IsWriteOn u h (status_updated g) = Write u h g
IsWriteOn u h (finalizer_ensured g) = Write u h g

abbrev pub IsWrite : Util → ByotHost × ByotHost → Type 0
IsWrite u (b, g) = Write u b g

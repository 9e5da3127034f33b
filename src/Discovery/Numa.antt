-- ===== src/Discovery/Numa.antt =====
-- isNumaNodeDir of pkg/controller/discovery.go, and the count of discoverNumaNodes over the names
-- of a directory listing.
use Prim.Native.String.{slice, len}
use cluster_api_provider_bri.Prelude.{
  String, ◌≡◌, refl, Bool, true, false, not, ◌==◌, if◌then◌else◌,
}
use cluster_api_provider_bri.Prelude.Text.{has_prefix, all_digits}

unfoldable pub is_numa_node_dir : String → Bool
is_numa_node_dir name =
    if not (has_prefix name "node")
    then false
    else let rest = slice name 4 (len name) in if rest == "" then false else all_digits rest

numa_tests :
    (is_numa_node_dir "node0" ≡ true)
    × (is_numa_node_dir "node17" ≡ true)
    × (is_numa_node_dir "node" ≡ false)
    × (is_numa_node_dir "has_cpu" ≡ false)
    × (is_numa_node_dir "node1a" ≡ false)
unfolding is_numa_node_dir all_digits
numa_tests = (refl, refl, refl, refl, refl)

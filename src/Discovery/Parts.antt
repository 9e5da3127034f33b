-- ===== src/Discovery/Parts.antt =====
-- The functions of pkg/controller/discovery.go on single answers of a machine: discoverCPU,
-- parsePlatform, the loops of discoverNumaNodes and discoverNetInterfaces, populateSystemIdentity
-- and populateHardwareAddr. An answer is `none` where COSI answers with an error.
use Prim.Native.Char.{code}
use cluster_api_provider_bri.Prelude.{
  ℕ, ◌+◌, String, Bool, not, ◌&&◌, ◌||◌, Option, none, some, List, [], ◌∷◌, ◌≡◌, refl, ◌==◌, nat_eq,
  length, any, if◌then◌else◌,
}
use cluster_api_provider_bri.Prelude.Int.{ℤ, pos, is_pos, add_int32, of_residue32}
use cluster_api_provider_bri.Prelude.Text.{has_prefix, trim_prefix}
use cluster_api_provider_bri.Prelude.Order.{str_lt}
use cluster_api_provider_bri.Api.Host.{HostCpu, HostIdentity}
use cluster_api_provider_bri.Discovery.Numa.{is_numa_node_dir}

pub record Processor : Type 0 where
  pub socket : String
  pub core_count : ℕ

abbrev default_cpu : HostCpu
default_cpu = record { cores = pos 1; packages = pos 1; numa_nodes = pos 1 }

abbrev add_socket : String → List String → List String
add_socket s l = if any (λ t. t == s) l then l else s ∷ l

abbrev count_processor : Processor → ℤ × List String → ℤ × List String
count_processor p (cores, sockets) =
    if p.socket == ""
    then (cores, sockets)
    else (add_int32 cores (of_residue32 p.core_count), add_socket p.socket sockets)

-- The loop of discoverCPU: totalCores and sockets.
unfoldable pub count_processors : ℤ × List String → List Processor → ℤ × List String
count_processors r [] = r
count_processors r (p ∷ l) = count_processors (count_processor p r) l

abbrev cpu_of : ℤ × List String → HostCpu
cpu_of (cores, []) = record default_cpu { cores = if is_pos cores then cores else pos 1 }
cpu_of (cores, s ∷ l) = record default_cpu {
  cores = if is_pos cores then cores else pos 1;
  packages = of_residue32 (length (s ∷ l));
}

unfoldable pub discover_cpu : Option (List Processor) → HostCpu
discover_cpu none = default_cpu
discover_cpu (some l) = cpu_of (count_processors (pos 0, []) l)

-- The white space of a regular expression.
abbrev is_blank : ℕ → Bool
is_blank c = nat_eq c 32 || nat_eq c 9 || nat_eq c 10 || nat_eq c 12 || nat_eq c 13

unfoldable pub until_blank : String → String
until_blank String.[] = ""
until_blank (String.◌∷◌ c s) =
    let rest = until_blank s in if is_blank (code c) then "" else String.◌∷◌ c rest

-- The first match of `talos\.platform=(\S+)`.
unfoldable pub parse_platform : String → String
unfolding until_blank
parse_platform String.[] = ""
parse_platform (String.◌∷◌ c s) =
    let rest = parse_platform s in
    let value = until_blank (trim_prefix (String.◌∷◌ c s) "talos.platform=") in
    if has_prefix (String.◌∷◌ c s) "talos.platform=" && not (value == "") then value else rest

platform_tests :
    (parse_platform "ro talos.platform=metal quiet" ≡ "metal")
    × (parse_platform "ro quiet" ≡ "")
    × (parse_platform "talos.platform= talos.platform=aws" ≡ "aws")
unfolding parse_platform
platform_tests = (refl, refl, refl)

-- What `ls` sends of an entry; a nil message is `none`.
pub record FileInfo : Type 0 where
  pub relative_name : String
  pub name : String

-- The relative name, the name if there is none; an entry that is nil is skipped.
abbrev entry_name : Option FileInfo → String
entry_name none = ""
entry_name (some f) = if f.relative_name == "" then f.name else f.relative_name

-- The loop of discoverNumaNodes.
unfoldable pub count_numa_nodes : List (Option FileInfo) → ℕ
count_numa_nodes [] = 0
count_numa_nodes (f ∷ l) =
    let rest = count_numa_nodes l in if is_numa_node_dir (entry_name f) then rest + 1 else rest

-- The loop of discoverNetInterfaces.
unfoldable pub interface_names : List (Option FileInfo) → List String
interface_names [] = []
interface_names (f ∷ l) =
    let rest = interface_names l in
    let name = entry_name f in
    if name == "" || name == "lo" || name == "." then rest else name ∷ rest

abbrev insert_sorted : String → List String → List String
insert_sorted s [] = s ∷ []
insert_sorted s (t ∷ l) = let rest = insert_sorted s l in if str_lt t s then t ∷ rest else s ∷ t ∷ l

-- sort.Strings
unfoldable pub sort_strings : List String → List String
sort_strings [] = []
sort_strings (s ∷ l) = insert_sorted s (sort_strings l)

pub record SystemInformation : Type 0 where
  pub uuid : String
  pub serial_number : String
  pub manufacturer : String
  pub product_name : String

-- The bytes of a hardware address, and its text.
pub record HardwareAddr : Type 0 where
  pub bytes : List ℕ
  pub printed : String

abbrev no_identity : HostIdentity
no_identity = record {
  system_uuid = "";
  serial_number = "";
  manufacturer = "";
  product_name = "";
  hardware_addr = "";
}

unfoldable pub populate_system_identity : Option SystemInformation → HostIdentity → HostIdentity
populate_system_identity none i = i
populate_system_identity (some s) i = record i {
  system_uuid = s.uuid;
  serial_number = s.serial_number;
  manufacturer = s.manufacturer;
  product_name = s.product_name;
}

-- An address of zero bytes, or of bytes that are all zero, is skipped.
unfoldable pub populate_hardware_addr : Option HardwareAddr → HostIdentity → HostIdentity
populate_hardware_addr none i = i
populate_hardware_addr (some a) i =
    if any (λ b. not (nat_eq b 0)) a.bytes then record i { hardware_addr = a.printed } else i

unfoldable pub is_identified : HostIdentity → Bool
is_identified i =
    not (i.system_uuid == "")
    || not (i.hardware_addr == "")
    || not (i.serial_number == "")
    || not (i.manufacturer == "")
    || not (i.product_name == "")

-- discoverIdentity, on the two answers.
unfoldable pub identity_of : Option SystemInformation → Option HardwareAddr → Option HostIdentity
identity_of s a =
    let i = populate_hardware_addr a (populate_system_identity s no_identity) in
    if is_identified i then some i else none

-- ===== src/Discovery/Addresses.antt =====
-- discoverAddresses and isRFC1918 of pkg/controller/discovery.go. An address is the IPv4 text that
-- netip.Addr prints, so of net.ParseIP only the branch for dotted texts is written out.
pub mod Choice
use Prim.Native.Char.{code}
use Prim.Native.String.{len}
use cluster_api_provider_bri.Prelude.{
  ℕ, ◌+◌, ◌-◌, ◌*◌, String, Bool, true, false, not, ◌&&◌, ◌||◌, Option, none, some, List, [], ◌∷◌,
  ◌≡◌, refl, ◌==◌, nat_eq, leb, ltb, if◌then◌else◌,
}
use cluster_api_provider_bri.Prelude.Text.{has_prefix}

-- Whether the family is IPv4 and whether the scope is that of the link.
pub record AddressStatus : Type 0 where
  pub inet4 : Bool
  pub link_scope : Bool
  pub link_name : String
  pub address : String

-- The fields of a dotted text: the first, and the others.
unfoldable fields : String → String × List String
fields String.[] = ("", [])
fields (String.◌∷◌ c s) =
    let r = fields s in if nat_eq (code c) b'.' then ("", r.0 ∷ r.1) else (String.◌∷◌ c r.0, r.1)

-- A field as a number of at most 255, `acc` before it.
unfoldable octet_from : ℕ → String → Option ℕ
octet_from acc String.[] = some acc
octet_from acc (String.◌∷◌ c s) =
    let next = acc * 10 + (code c - b'0') in
    let rest = octet_from next s in
    if leb b'0' (code c) && leb (code c) b'9' && leb next 255 then rest else none

-- A field is not empty and has no leading zero.
unfoldable octet : String → Option ℕ
unfolding octet_from
octet s = if s == "" || (has_prefix s "0" && ltb 1 (len s)) then none else octet_from 0 s

-- 10/8, 172.16/12 and 192.168/16, by the first two bytes.
abbrev is_private : ℕ → ℕ → Bool
is_private a b =
    nat_eq a 10 || (nat_eq a 172 && leb 16 b && leb b 31) || (nat_eq a 192 && nat_eq b 168)

abbrev private_quad : Option ℕ → Option ℕ → Option ℕ → Option ℕ → Bool
private_quad (some a) (some b) (some c) (some d) = is_private a b
private_quad none b c d = false
private_quad (some a) none c d = false
private_quad (some a) (some b) none d = false
private_quad (some a) (some b) (some c) none = false

abbrev private_fields : String × List String → Bool
private_fields (a, b ∷ c ∷ d ∷ []) = private_quad (octet a) (octet b) (octet c) (octet d)
private_fields (a, l) = false

unfoldable pub is_rfc1918 : String → Bool
unfolding fields octet
is_rfc1918 ip = private_fields (fields ip)

rfc1918_tests :
    (is_rfc1918 "10.0.0.1" ≡ true)
    × (is_rfc1918 "172.15.0.1" ≡ false)
    × (is_rfc1918 "172.31.0.1" ≡ true)
    × (is_rfc1918 "192.168.1.9" ≡ true)
    × (is_rfc1918 "10.0.0.256" ≡ false)
    × (is_rfc1918 "10.0.0" ≡ false)
unfolding is_rfc1918
rfc1918_tests = (refl, refl, refl, refl, refl, refl)

-- The addresses that the loop does not skip.
abbrev pub is_eligible : AddressStatus → Bool
is_eligible a = a.inet4 && not (a.link_scope || a.link_name == "lo") && not (a.address == "")

-- What an address that the loop does not skip makes of ExternalIP and InternalIP.
abbrev pub record_address : String → String → String × String → String × String
record_address public_ip ip (external, internal) =
    if ip == public_ip
    then (ip, internal)
    else if internal == "" && is_rfc1918 ip
    then (external, ip)
    else (external, internal)

abbrev pub see_address : String → AddressStatus → String × String → String × String
see_address public_ip a r = if is_eligible a then record_address public_ip a.address r else r

-- The loop of discoverAddresses, on the two fields of the result.
unfoldable pub addresses_from : String → String × String → List AddressStatus → String × String
addresses_from public_ip r [] = r
addresses_from public_ip r (a ∷ l) = addresses_from public_ip (see_address public_ip a r) l

-- ExternalIP and InternalIP; the list is `none` when COSI answers with an error.
unfoldable pub discover_addresses : String → Option (List AddressStatus) → String × String
discover_addresses public_ip none = ("", "")
discover_addresses public_ip (some l) = addresses_from public_ip ("", "") l

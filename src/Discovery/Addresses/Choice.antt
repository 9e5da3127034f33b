-- ===== src/Discovery/Addresses/Choice.antt =====
-- Which addresses discoverAddresses of pkg/controller/discovery.go reports.
use cluster_api_provider_bri.Prelude.{
  String, Bool, true, false, not, ◌&&◌, some, List, [], ◌∷◌, ◌≡◌, ◌∙◌, inl, inr, Bool-cases, refl,
  ◌==◌, any, if◌then◌else◌, arith, eq_iff,
}
use cluster_api_provider_bri.Discovery.Addresses.{
  AddressStatus, is_eligible, is_rfc1918, see_address, addresses_from, discover_addresses,
}

-- An address that the loop does not skip and that is the public one.
abbrev pub is_public : String → AddressStatus → Bool
is_public public_ip a = is_eligible a && a.address == public_ip

-- One that is private and not the public one.
abbrev pub is_internal : String → AddressStatus → Bool
is_internal public_ip a = is_eligible a && not (a.address == public_ip) && is_rfc1918 a.address

-- The first internal address, empty if there is none.
abbrev pub first_internal : String → List AddressStatus → String
first_internal public_ip [] = ""
first_internal public_ip (a ∷ l) =
    let rest = first_internal public_ip l in if is_internal public_ip a then a.address else rest

-- The fields at the end of the loop, which starts with `r`, of what the list has in it.
abbrev chosen : String → String × String → Bool → String → String × String
chosen p r found internal = (if found then p else r.0, if r.1 == "" then internal else r.1)

-- One address that is not skipped; `private` is the test of isRFC1918.
recorded-chosen :
    (p ip external internal rest : String) (private found : Bool)
    → (ip == "") ≡ false
    → chosen p
        (if ip == p
          then (ip, internal)
          else if internal == "" && private
          then (external, ip)
          else (external, internal))
        found
        rest
      ≡ chosen p
          (external, internal)
          (if ip == p then true else found)
          (if not (ip == p) && private then ip else rest)
recorded-chosen p ip external internal rest private found nonempty = elim (Bool-cases (ip == p)) [
  | inl same ↦ ground (arith, eq_iff ip p)
  | inr differs ↦ ground (arith, eq_iff internal "")
]

nonempty_address : (a : AddressStatus) → is_eligible a ≡ true → (a.address == "") ≡ false
nonempty_address a seen = ground arith

see_address-chosen :
    (p : String) (a : AddressStatus) (r : String × String) (l : List AddressStatus)
    → chosen p (see_address p a r) (any (is_public p) l) (first_internal p l)
      ≡ chosen p r (any (is_public p) (a ∷ l)) (first_internal p (a ∷ l))
see_address-chosen p a r l = elim (Bool-cases (is_eligible a)) [
  | inl seen ↦ rw seen (
      recorded-chosen p a.address r.0 r.1 (first_internal p l) (is_rfc1918 a.address)
        (any (is_public p) l) (nonempty_address a seen))
  | inr skipped ↦ rw skipped refl
]

addresses_from-choice :
    (p : String) (r : String × String) (l : List AddressStatus)
    → addresses_from p r l ≡ chosen p r (any (is_public p) l) (first_internal p l)
unfolding addresses_from
addresses_from-choice p r [] = elim (Bool-cases (r.1 == "")) [
  | inl e ↦ ground (arith, eq_iff r.1 "")
  | inr e ↦ rw e refl
]
addresses_from-choice p r (a ∷ l) =
    addresses_from-choice p (see_address p a r) l ∙ see_address-chosen p a r l

-- ExternalIP is the public IP if a reported IPv4 address of a link other than lo, not of link scope,
-- is the public IP, and else empty. InternalIP is the first of these addresses that is private and
-- not the public IP, and empty if there is none.
pub discover_addresses-choice :
    (p : String) (l : List AddressStatus)
    → discover_addresses p (some l) ≡ (if any (is_public p) l then p else "", first_internal p l)
unfolding discover_addresses
discover_addresses-choice p l = addresses_from-choice p ("", "") l

-- ===== src/Claim/Candidates.antt =====
-- The choice of a host to claim (filterClaimCandidates and selectClaimCandidate of
-- pkg/controller/claim.go).
use mathlib.Core.List.{Memᴰ}
use cluster_api_provider_bri.Prelude.{
  String, true, false, Option, none, some, List, [], ◌∷◌, ◌≡◌, ◌⊎◌, ◌↔◌, inl, inr, refl, arith,
  eq_iff, Bool-cases,
}
use cluster_api_provider_bri.Prelude.Order.{str_lt, str_lt_trans, str_lt_asymm, str_lt_irrefl}
use cluster_api_provider_bri.Api.Meta.{Util}
use cluster_api_provider_bri.Api.Host.{
  ByotHost, HostClaimRef, available, host_maintenance_probe_condition,
}
use cluster_api_provider_bri.Api.Machine.{ByotMachine}
use cluster_api_provider_bri.Claim.{
  is_blank, value, claimed_by_other, is_candidate, filter_claim_candidates, smaller, first_by_name,
  pick,
}

-- No claim, or one of the machine itself.
abbrev pub Unclaimed : Option HostClaimRef → String → Type 0
Unclaimed o uid = (o ≡ none) ⊎ ((ref : HostClaimRef) × (o ≡ some ref) × (ref.uid ≡ uid))

-- A host that the machine may claim.
pub record IsClaimable (u : Util) (m : ByotMachine) (h : ByotHost) : Type 0 where
  pub in_registry : h.status.phase ≡ available
  pub alive : u.is_true h.status.conditions host_maintenance_probe_condition ≡ true
  pub unclaimed : Unclaimed h.status.claim_ref m.meta.uid
  pub in_domain :
      (is_blank m.spec.failure_domain ≡ true)
      ⊎ (is_blank h.spec.failure_domain ≡ true)
      ⊎ (value h.spec.failure_domain ≡ value m.spec.failure_domain)

pub Unclaimed-of :
    (o : Option HostClaimRef) (uid : String) → claimed_by_other o uid ≡ false → Unclaimed o uid
unfolding claimed_by_other
Unclaimed-of none uid e = inl refl
Unclaimed-of (some ref) uid e = inr (ref, refl, ground (arith, eq_iff ref.uid uid))

pub claimed_by_other-false :
    (o : Option HostClaimRef) (uid : String) → Unclaimed o uid → claimed_by_other o uid ≡ false
unfolding claimed_by_other
claimed_by_other-false none uid e = refl
claimed_by_other-false (some ref) uid (inl e) = cc
claimed_by_other-false (some ref) uid (inr (ref', e, same)) = ground (arith, eq_iff ref.uid uid)

module _ (u : Util) (m : ByotMachine) where
  IsClaimable-of : (h : ByotHost) → is_candidate u m h ≡ true → IsClaimable u m h
  unfolding is_candidate
  IsClaimable-of h e = record {
    in_registry = ground arith;
    alive = ground arith;
    unclaimed = Unclaimed-of h.status.claim_ref m.meta.uid (ground arith);
    in_domain = ground (arith, eq_iff (value h.spec.failure_domain) (value m.spec.failure_domain));
  }

  is_candidate-true : (h : ByotHost) → IsClaimable u m h → is_candidate u m h ≡ true
  unfolding is_candidate
  is_candidate-true h e = ground (
    arith,
    claimed_by_other-false h.status.claim_ref m.meta.uid e.unclaimed,
    eq_iff (value h.spec.failure_domain) (value m.spec.failure_domain),
  )

  module _ {h g : ByotHost} {rest hosts : List ByotHost} where
    with_head :
        IsClaimable u m g
        → (Memᴰ h rest → Memᴰ h hosts × IsClaimable u m h)
        → Memᴰ h (g ∷ rest)
        → Memᴰ h (g ∷ hosts) × IsClaimable u m h
    with_head c ih (Memᴰ.head e) = (Memᴰ.head e, rw e c)
    with_head c ih (Memᴰ.tail t) = (Memᴰ.tail (ih t).0, (ih t).1)

  module _ (h : ByotHost) where
    kept-IsClaimable :
        (hosts : List ByotHost)
        → Memᴰ h (filter_claim_candidates u hosts m)
        → Memᴰ h hosts × IsClaimable u m h
    unfolding filter_claim_candidates
    kept-IsClaimable [] x = elim x [ ]
    kept-IsClaimable (g ∷ hosts) x = elim (Bool-cases (is_candidate u m g)) [
      | inl t ↦ with_head (IsClaimable-of g t) (kept-IsClaimable hosts) (rw t at x)
      | inr f ↦ let ih = kept-IsClaimable hosts (rw f at x) in (Memᴰ.tail ih.0, ih.1)
    ]

    claimable_is_kept :
        (hosts : List ByotHost)
        → Memᴰ h hosts
        → IsClaimable u m h
        → Memᴰ h (filter_claim_candidates u hosts m)
    unfolding filter_claim_candidates
    claimable_is_kept [] x c = elim x [ ]
    claimable_is_kept (g ∷ hosts) (Memᴰ.head e) c =
        rw (is_candidate-true g (rw e at c)) (Memᴰ.head e)
    claimable_is_kept (g ∷ hosts) (Memᴰ.tail t) c = elim (Bool-cases (is_candidate u m g)) [
      | inl y ↦ rw y (Memᴰ.tail (claimable_is_kept hosts t c))
      | inr n ↦ rw n (claimable_is_kept hosts t c)
    ]

  -- filterClaimCandidates keeps a host exactly if it is one of the hosts, and is Available, alive at
  -- its last probe, not claimed by another machine, and of a failure domain that fits: no domain
  -- wanted, none set on the host, or the same.
  pub mem-filter_claim_candidates :
      (h : ByotHost) (hosts : List ByotHost)
      → Memᴰ h (filter_claim_candidates u hosts m) ↔ (Memᴰ h hosts × IsClaimable u m h)
  mem-filter_claim_candidates h hosts =
      (kept-IsClaimable h hosts, λ p. claimable_is_kept h hosts p.0 p.1)

smaller-le_left : (a b : ByotHost) → str_lt a.meta.name (smaller a b).meta.name ≡ false
smaller-le_left a b = elim (Bool-cases (str_lt b.meta.name a.meta.name)) [
  | inl t ↦ rw t (str_lt_asymm b.meta.name a.meta.name t)
  | inr f ↦ rw f (str_lt_irrefl a.meta.name)
]

smaller-le_right : (a b : ByotHost) → str_lt b.meta.name (smaller a b).meta.name ≡ false
smaller-le_right a b = elim (Bool-cases (str_lt b.meta.name a.meta.name)) [
  | inl t ↦ rw t (str_lt_irrefl b.meta.name)
  | inr f ↦ rw f f
]

smaller-mem :
    (a b : ByotHost) (hosts : List ByotHost) (r : ByotHost)
    → Memᴰ r (smaller a b ∷ hosts)
    → Memᴰ r (a ∷ b ∷ hosts)
smaller-mem a b hosts r (Memᴰ.tail t) = Memᴰ.tail (Memᴰ.tail t)
smaller-mem a b hosts r (Memᴰ.head e) = elim (Bool-cases (str_lt b.meta.name a.meta.name)) [
  | inl t ↦ Memᴰ.tail (Memᴰ.head (rw t at e))
  | inr f ↦ Memᴰ.head (rw f at e)
]

first-mem : (h : ByotHost) (hosts : List ByotHost) → Memᴰ (first_by_name h hosts) (h ∷ hosts)
unfolding first_by_name
first-mem h [] = Memᴰ.head refl
first-mem h (g ∷ hosts) =
    smaller-mem h g hosts (first_by_name (smaller h g) hosts) (first-mem (smaller h g) hosts)

first-le_head :
    (h : ByotHost) (hosts : List ByotHost)
    → str_lt h.meta.name (first_by_name h hosts).meta.name ≡ false
unfolding first_by_name
first-le_head h [] = str_lt_irrefl h.meta.name
first-le_head h (g ∷ hosts) =
    str_lt_trans h.meta.name (smaller h g).meta.name _ (smaller-le_left h g)
      (first-le_head (smaller h g) hosts)

first-le_rest :
    (x h : ByotHost) (hosts : List ByotHost)
    → Memᴰ x hosts
    → str_lt x.meta.name (first_by_name h hosts).meta.name ≡ false
unfolding first_by_name
first-le_rest x h [] m = elim m [ ]
first-le_rest x h (g ∷ hosts) (Memᴰ.head e) = rw e (
    str_lt_trans g.meta.name (smaller h g).meta.name _ (smaller-le_right h g)
      (first-le_head (smaller h g) hosts))
first-le_rest x h (g ∷ hosts) (Memᴰ.tail t) = first-le_rest x (smaller h g) hosts t

first-le :
    (x h : ByotHost) (hosts : List ByotHost)
    → Memᴰ x (h ∷ hosts)
    → str_lt x.meta.name (first_by_name h hosts).meta.name ≡ false
first-le x h hosts (Memᴰ.head e) = rw e (first-le_head h hosts)
first-le x h hosts (Memᴰ.tail t) = first-le_rest x h hosts t

-- What a choice among hosts is: the host that it takes is one of them that the machine may claim,
-- and no other such host has a smaller name; it takes none only if there is no such host.
abbrev pub IsChoice : Util → ByotMachine → List ByotHost → Option ByotHost → Type 0
IsChoice u m hosts none = (g : ByotHost) → Memᴰ g hosts → ¬ IsClaimable u m g
IsChoice u m hosts (some h) =
    Memᴰ h hosts
    × IsClaimable u m h
    × ((g : ByotHost) → Memᴰ g hosts → IsClaimable u m g → str_lt g.meta.name h.meta.name ≡ false)

pick-IsChoice_of :
    (u : Util) (m : ByotMachine) (hosts l : List ByotHost)
    → l ≡ filter_claim_candidates u hosts m
    → IsChoice u m hosts (pick l)
unfolding pick
pick-IsChoice_of u m hosts [] e =
    λ g x c. elim (rw (← e) at (claimable_is_kept u m g hosts x c)) [ ]
pick-IsChoice_of u m hosts (h ∷ l) e =
    let kept = kept-IsClaimable u m (first_by_name h l) hosts (rw e at (first-mem h l)) in
    (kept.0, kept.1, λ g x c. first-le g h l (rw (← e) at (claimable_is_kept u m g hosts x c)))

-- selectClaimCandidate takes, of the hosts that the API server lists, the one with the least name
-- among those that the machine may claim, and none exactly if there are none.
pub pick-IsChoice :
    (u : Util) (m : ByotMachine) (hosts : List ByotHost)
    → IsChoice u m hosts (pick (filter_claim_candidates u hosts m))
pick-IsChoice u m hosts = pick-IsChoice_of u m hosts (filter_claim_candidates u hosts m) refl

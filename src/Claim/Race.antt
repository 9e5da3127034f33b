-- ===== src/Claim/Race.antt =====
-- A claim against concurrent writers (claimCAS of pkg/controller/claim.go). The API server keeps
-- one host with its resourceVersion and refuses an update of an object that it has changed since
-- it was read; other clients may write before any call.
use cluster_api_provider_bri.Prelude.{
  ℕ, suc, false, Option, none, some, List, [], ◌∷◌, ◌≡◌, ◌⊎◌, arith, nat_eq, if◌then◌else◌, All,
}
use cluster_api_provider_bri.Go.{conflict}
use cluster_api_provider_bri.Go.Action.{Result, ok, err}
use cluster_api_provider_bri.Api.Meta.{Util}
use cluster_api_provider_bri.Api.Host.{ByotHost}
use cluster_api_provider_bri.Api.Machine.{ByotMachine}
use cluster_api_provider_bri.Client.{HostClient}
use cluster_api_provider_bri.Claim.{claimed_by_other, claim_ref_of, take_claim, protected}
use cluster_api_provider_bri.Claim.Acquire.{claim_cas}

-- The stored host and its version, the version of the object that the claim holds, what other
-- clients store before the calls to come, and the updates that the claim made: the host that was
-- replaced, and its replacement. The last one stands first.
pub record Contended : Type 0 where
  pub stored : ByotHost
  pub version : ℕ
  pub held : ℕ
  pub others : List (Option ByotHost)
  pub replaced : List (ByotHost × ByotHost)

abbrev overwrite : Option ByotHost → List (Option ByotHost) → Contended → Contended
overwrite none os w = record w { others = os }
overwrite (some g) os w = record w { others = os; stored = g; version = suc w.version }

abbrev interfere_by : List (Option ByotHost) → Contended → Contended
interfere_by [] w = w
interfere_by (o ∷ os) w = overwrite o os w

-- Another client gets its turn.
abbrev interfere : Contended → Contended
interfere w = interfere_by w.others w

abbrev read : Contended → Result ByotHost × Contended
read w = (ok w.stored, record w { held = w.version })

abbrev commit : ByotHost → Contended → Result ByotHost × Contended
commit g w =
    if nat_eq w.held w.version
    then (
      ok g,
      record {
        stored = g;
        version = suc w.version;
        held = suc w.version;
        others = w.others;
        replaced = (w.stored, g) ∷ w.replaced;
      },
    )
    else (err conflict, w)

-- The API server with optimistic concurrency. The calls that a claim does not make do nothing.
abbrev pub contended : HostClient Contended
contended = record {
  get_host = λ k w. read (interfere w);
  list_hosts = λ n l w. (ok (w.stored ∷ []), w);
  update_host = λ h w. commit h (interfere w);
  update_host_status = λ h w. commit h (interfere w);
  new_host_helper = λ h w. (ok h, w);
  patch_host = λ b h w. (ok tt, w);
  ensure_host_finalizer = λ h f w. (ok h, w);
  parse_selector = λ l w. (ok l, w);
  now = λ w. (0, w);
}

-- An update that a claim may make: the host that it replaces is not claimed by another machine, and
-- the replacement is the same host with the claim of the machine, or, where that claim is there
-- already, with the finalizer.
abbrev pub IsOwnUpdate : Util → ByotMachine → ByotHost × ByotHost → Type 0
IsOwnUpdate u m (b, g) =
    ((claimed_by_other b.status.claim_ref m.meta.uid ≡ false) × (g ≡ take_claim m b))
    ⊎ ((b.status.claim_ref ≡ some (claim_ref_of m)) × (g ≡ protected u b))

-- Whatever other clients write before each of its calls, claimCAS replaces only hosts that no other
-- machine has claimed at the moment of the update, and changes nothing in them but its own claim
-- and the finalizer. So no claim is ever taken from another machine.
pub claim_cas-IsOwnUpdate :
    (u : Util) (m : ByotMachine) (h g : ByotHost) (version held : ℕ)
    (others : List (Option ByotHost))
    → All (IsOwnUpdate u m) (
        (claim_cas u contended h m (record {
          stored = g;
          version = version;
          held = held;
          others = others;
          replaced = [];
        })).1.replaced)
unfolding claim_cas
claim_cas-IsOwnUpdate u m h g version held others = grind arith

-- ===== src/Release/Attempts.antt =====
-- What a release does (releaseHost of pkg/controller/claim.go and attemptReset of
-- pkg/controller/byotmachine_controller.go), on machines whose answers are given in advance.
use cluster_api_provider_bri.Prelude.{
  String, Bool, true, false, Option, none, some, List, [], ◌∷◌, ◌≡◌, refl, arith, if◌then◌else◌,
  any,
}
use cluster_api_provider_bri.Go.{Err}
use cluster_api_provider_bri.Go.Action.{Result, ok, err}
use cluster_api_provider_bri.Api.Host.{ByotHost}
use cluster_api_provider_bri.Api.Machine.{ByotMachine}
use cluster_api_provider_bri.Endpoints.{Endpoints}
use cluster_api_provider_bri.Client.{HostClient}
use cluster_api_provider_bri.Client.Journal.{HostWrite, status_updated, Logged, journaled, journal}
use cluster_api_provider_bri.Release.{
  ReleaseSeams, release_clean, release_reset, reset_error, attempt_reset_from, attempt_reset,
  release_found, store_release,
}

-- A machine that answers a reset with given credentials by an error or not.
abbrev pub Answers : Type 0
Answers = Option String → Option Err

abbrev pub answer : Option Err → Result (Unit {0})
answer none = ok tt
answer (some e) = err e

-- The seams of such a machine: whether it is in maintenance mode, the candidates, the answers. Its
-- world is the list of the credentials that were tried, the last ones first.
abbrev pub recorded : Bool → List (Option String) → Answers → ReleaseSeams (List (Option String))
recorded maintenance candidates f = record {
  probe_maintenance = λ e w. (maintenance, w);
  reset_credential_candidates = λ m w. (ok candidates, w);
  reset_machine = λ e c w. (answer (f c), c ∷ w);
}

abbrev accepted : Option Err → Bool
accepted none = true
accepted (some e) = false

-- Whether a candidate is accepted.
abbrev pub some_accepted : Answers → List (Option String) → Bool
some_accepted f l = any (λ c. accepted (f c)) l

-- The candidates up to the first accepted one, the last one first, before those of `w`.
abbrev pub tried : Answers → List (Option String) → List (Option String) → List (Option String)
tried f [] w = w
tried f (c ∷ l) w = let rest = tried f l (c ∷ w) in if accepted (f c) then c ∷ w else rest

-- The error of the last candidate, or `last` if there is none.
abbrev pub last_error : Answers → Option Err → List (Option String) → Option Err
last_error f last [] = last
last_error f last (c ∷ l) = last_error f (f c) l

abbrev pub outcome : Bool → Option Err → Result (Unit {0})
outcome true last = ok tt
outcome false last = err (reset_error last)

module _ (s : ReleaseSeams (List (Option String))) (f : Answers)
    (answers : (e : Endpoints) (c : Option String) (w : List (Option String))
      → s.reset_machine e c w ≡ (answer (f c), c ∷ w)) where
  attempt_reset_from-tried :
      (last : Option Err) (l : List (Option String)) (e : Endpoints) (w : List (Option String))
      → attempt_reset_from s last l e w
        ≡ (outcome (some_accepted f l) (last_error f last l), tried f l w)
  unfolding attempt_reset_from
  attempt_reset_from-tried last [] e w = refl
  attempt_reset_from-tried last (c ∷ l) e w =
      let ih = attempt_reset_from-tried (f c) l e (c ∷ w) in grind (arith, answers e c w)

  -- attemptReset tries the candidates in order up to the first that the machine accepts, and no
  -- other; it succeeds exactly if one is accepted, and otherwise fails with the error of the last
  -- candidate, or with ErrNoResetCredentials if there is no candidate.
  pub attempt_reset-recorded :
      (l : List (Option String)) (e : Endpoints) (w : List (Option String))
      → attempt_reset s l e w ≡ (outcome (some_accepted f l) (last_error f none l), tried f l w)
  unfolding attempt_reset
  attempt_reset-recorded l e w = attempt_reset_from-tried none l e w

module _ {W : Type 0} where
  -- The seams of the machine next to a registry with the world `W`.
  abbrev pub beside : Bool → List (Option String) → Answers → ReleaseSeams (Logged W)
  beside maintenance candidates f = record {
    probe_maintenance = λ e w. (maintenance, w);
    reset_credential_candidates = λ m w. (ok candidates, w);
    reset_machine = λ e c w. (answer (f c), w);
  }

  attempt_reset-beside :
      (f : Answers) (maintenance : Bool) (all : List (Option String)) (last : Option Err)
      (l : List (Option String)) (e : Endpoints) (w : Logged W)
      → attempt_reset_from (beside maintenance all f) last l e w
        ≡ (outcome (some_accepted f l) (last_error f last l), w)
  unfolding attempt_reset_from
  attempt_reset-beside f b all last [] e w = refl
  attempt_reset-beside f b all last (c ∷ l) e w =
      let ih = attempt_reset-beside f b all (f c) l e w in grind arith

-- What a release stores: the host as Available without its claim if the machine is in maintenance
-- mode already; as Releasing without its claim if the machine accepted a reset; nothing otherwise.
abbrev pub release_writes : Bool → List (Option String) → Answers → ByotHost → List HostWrite
release_writes true l f h = status_updated (release_clean h) ∷ []
release_writes false l f h = if some_accepted f l then status_updated (release_reset h) ∷ [] else []

-- If its candidates can be listed and the machine answers a credential always alike, releaseHost on
-- the host that it fetched sends exactly the store that `release_writes` says, whatever the API server
-- answers: a host loses its claim only once its machine is seen in maintenance mode or has
-- accepted a reset with one of the candidates, and a machine that could not be reset keeps its host
-- claimed.
pub release_found-writes :
    {W : Type 0} (c : HostClient W) (maintenance : Bool) (l : List (Option String)) (f : Answers)
    (m : ByotMachine) (h : ByotHost) (w : W)
    → journal (release_found (journaled c) (beside maintenance l f) m h (w, []))
      ≡ release_writes maintenance l f h
unfolding release_found attempt_reset store_release release_clean release_reset
release_found-writes c b l f m h w = grind (arith, attempt_reset-beside f b l none l)

-- ===== src/Tests/World.antt =====
-- Conditions and finalizers as lists, with the behaviour that the controllers rely on, and an API
-- server and machines with given answers.
use cluster_api_provider_bri.Prelude.{
  String, Bool, true, false, some, List, [], ◌∷◌, ◌≡◌, refl, arith, eq_refl, ◌==◌, if◌then◌else◌,
}
use cluster_api_provider_bri.Go.{other}
use cluster_api_provider_bri.Go.Action.{ok, err}
use cluster_api_provider_bri.Api.Meta.{Util, UtilLaws, Condition, status_is_true}
use cluster_api_provider_bri.Api.Host.{ByotHost}
use cluster_api_provider_bri.Api.Cluster.{Cluster, Machine, Secret}
use cluster_api_provider_bri.Client.{HostClient, MachineClient}
use cluster_api_provider_bri.MachineController.Seams.{MachineSeams}

-- The status of the first condition of a type.
abbrev is_true_in : List (String × Condition) → String → Bool
is_true_in [] s = false
is_true_in ((t, v) ∷ l) s = if t == s then status_is_true v.status else is_true_in l s

abbrev contains_in : List String → String → Bool
contains_in [] f = false
contains_in (x ∷ l) f = if x == f then true else contains_in l f

abbrev remove_in : List String → String → List String
remove_in [] f = []
remove_in (x ∷ l) f = let rest = remove_in l f in if x == f then rest else x ∷ rest

abbrev pub util : Util
util = record {
  is_true = λ c s. is_true_in c.entries s;
  set_condition = λ c t v. record { entries = (t, v) ∷ c.entries };
  contains_finalizer = contains_in;
  add_finalizer = λ l f. f ∷ l;
  remove_finalizer = remove_in;
}

removed : (l : List String) (f : String) → contains_in (remove_in l f) f ≡ false
removed [] f = refl
removed (x ∷ l) f = ground (arith, removed l f)

pub util_laws : UtilLaws util
util_laws = record {
  is_true-set_condition = λ c t s v. refl;
  contains-add = λ l f. rw (eq_refl f) refl;
  contains-remove = removed;
}

-- An API server that gives one host, and refuses nothing.
abbrev pub serving : {W : Type 0} → ByotHost → HostClient W
serving h = record {
  get_host = λ k w. (ok h, w);
  list_hosts = λ n l w. (ok (h ∷ []), w);
  update_host = λ g w. (ok g, w);
  update_host_status = λ g w. (ok g, w);
  new_host_helper = λ g w. (ok g, w);
  patch_host = λ b g w. (ok tt, w);
  ensure_host_finalizer = λ g f w. (ok g, w);
  parse_selector = λ l w. (ok l, w);
  now = λ w. (0, w);
}

-- An API server with one secret, one cluster and one owner machine.
abbrev pub with_cluster : {W : Type 0} → Secret → Cluster → Machine → MachineClient W
with_cluster secret cluster machine = record {
  get_byot_machine = λ k w. (err (other "unused"), w);
  update_byot_machine = λ m w. (ok m, w);
  new_machine_helper = λ m w. (ok m, w);
  patch_machine = λ b m w. (ok tt, w);
  patch_machine_owned = λ b m o w. (ok tt, w);
  ensure_machine_finalizer = λ m f w. (ok m, w);
  get_owner_machine = λ m w. (ok (some machine), w);
  get_machine = λ k w. (ok machine, w);
  get_cluster = λ k w. (ok cluster, w);
  get_secret = λ k w. (ok secret, w);
  unix_nano = λ w. ("0", w);
}

-- A machine that carries the bundle of its cluster and answers every call.
abbrev pub answering : {W : Type 0} → MachineSeams W
answering = record {
  probe_maintenance = λ e w. (false, w);
  probe_authenticated = λ e cfg w. (true, w);
  version_probe_authenticated = λ e cfg w. (ok "v1.9.0", w);
  upgrade_machine = λ e cfg v w. (ok "boot-1", w);
  boot_id_authenticated = λ e cfg w. (ok "boot-2", w);
  reset_adopted_host = λ m w. (ok tt, w);
  apply_machine_config = λ e c cfg w. (ok tt, w);
  reset_machine = λ e cfg w. (ok tt, w);
  detect_system_disk = λ e cfg w. (ok "/dev/sda", w);
  service_running = λ e cfg n w. (ok true, w);
  restart_service = λ e cfg n w. (ok tt, w);
}

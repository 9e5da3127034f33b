-- ===== src/TalosApply.antt =====
-- pkg/controller/talos_apply.go: the calls on a Talos machine, over the Talos client, which is not
-- part of the repository. Timeouts and the closing of connections are not modelled, and a stream is
-- answered whole: its messages, then the error of the last Recv, none for io.EOF.
pub mod Upgrade
use Prim.Native.Char.{code}
use cluster_api_provider_bri.Prelude.{
  ℕ, String, Bool, true, false, ◌&&◌, ◌||◌, Option, none, some, List, [], ◌∷◌, ◌≡◌, refl, ◌==◌,
  nat_eq, leb, if◌then◌else◌, any,
}
use cluster_api_provider_bri.Prelude.Int.{ℤ, pos, negsuc, is_zero}
use cluster_api_provider_bri.Go.{
  Err, wrap, version_probe_empty, version_probe_no_info, no_system_disk, boot_id_unauthorized,
  upgrade_exit_code, is_boot_id_unauthorized,
}
use cluster_api_provider_bri.Go.Action.{
  M, Result, ok, err, handle, pure, raise, lift, wrap_err, ◌>>=◌, ◌>>◌,
}
use cluster_api_provider_bri.Endpoints.{Endpoints}
use cluster_api_provider_bri.Discovery.Disk.{TalosDisk, select_system_disk}

-- What LifecycleService.Upgrade sends: a message, the exit code, or neither.
pub data Progress : Type 0 where
  message : String → Progress
  exit_code : ℤ → Progress
  no_progress : Progress

pub record Stream (A : Type 0) : Type 0 where
  pub received : List A
  pub failure : Option Err

pub record ResetRequest : Type 0 where
  pub graceful : Bool
  pub reboot : Bool
  pub wiped : List String

-- The Talos client: `K` is a parsed talosconfig, `T` a client, `R` an open file.
pub record TalosClient (W K T R : Type 0) : Type 0 where
  pub parse_config : String → M W K
  pub new_maintenance : Endpoints → M W T
  pub new_authenticated : Endpoints → K → M W T
  pub apply_configuration : T → String → M W (Unit {0})
  pub version : T → M W (List (Option String))  -- the messages, with the tag of their version
  pub pull : T → String → M W (Stream (Unit {0}))
  pub upgrade : T → String → M W (Stream Progress)
  pub read : T → String → M W R
  pub read_all : R → M W String
  pub close : R → M W (Unit {0})
  pub reboot_machine : T → M W (Unit {0})
  pub service_restart : T → String → M W (Unit {0})
  pub service_info : T → String → M W (List (Option String))  -- the state of each service
  pub reset_generic : T → ResetRequest → M W (Unit {0})
  pub disks : T → M W (List (List TalosDisk))
  pub is_permission_denied : Err → Bool  -- status.Code(err) == codes.PermissionDenied

-- The ASCII characters that strings.TrimSpace cuts; a boot id is ASCII.
abbrev is_space : ℕ → Bool
is_space c = nat_eq c 32 || (leb 9 c && leb c 13)

unfoldable pub trim_start : String → String
trim_start String.[] = ""
trim_start (String.◌∷◌ c s) = if is_space (code c) then trim_start s else String.◌∷◌ c s

unfoldable pub trim_end : String → String
trim_end String.[] = ""
trim_end (String.◌∷◌ c s) =
    let rest = trim_end s in if is_space (code c) && rest == "" then "" else String.◌∷◌ c rest

-- strings.TrimSpace
unfoldable pub trim_space : String → String
unfolding trim_start trim_end
trim_space s = trim_end (trim_start s)

trim_tests : (trim_space " a b \n" ≡ "a b") × (trim_space "\n" ≡ "")
unfolding trim_space
trim_tests = (refl, refl)

-- resetMachine's request.
abbrev pub reset_request : ResetRequest
reset_request = record { graceful = false; reboot = true; wiped = "STATE" ∷ "EPHEMERAL" ∷ [] }

abbrev is_running : Option String → Bool
is_running none = false
is_running (some state_) = state_ == "Running"

-- The end of the loop of runLifecycleUpgrade, on the last message.
abbrev pub at_end : String → Option Err → Result (Unit {0})
at_end last none = err (upgrade_exit_code (negsuc 0) last)
at_end last (some e) = err e

-- The loop of runLifecycleUpgrade; `last` is lastMsg.
unfoldable pub upgrade_loop : String → List Progress → Option Err → Result (Unit {0})
upgrade_loop last [] failure = at_end last failure
upgrade_loop last (no_progress ∷ l) failure = upgrade_loop last l failure
upgrade_loop last (message s ∷ l) failure = upgrade_loop s l failure
upgrade_loop last (exit_code c ∷ l) failure =
    if is_zero c then ok tt else err (upgrade_exit_code c last)

-- The loop of pullInstallerImage.
abbrev pub pull_end : Option Err → Result (Unit {0})
pull_end none = ok tt
pull_end (some e) = err e

abbrev first_selected : List (List TalosDisk) → Result String
first_selected [] = err no_system_disk
first_selected (l ∷ ls) =
    let rest = first_selected ls in
    let chosen = select_system_disk l in if chosen.1 then ok chosen.0 else rest

abbrev first_tag : List (Option String) → Result String
first_tag [] = err (wrap "version probe returned no messages" version_probe_empty)
first_tag (none ∷ l) = err (wrap "version probe returned no version info" version_probe_no_info)
first_tag (some tag ∷ l) = ok tag

module _ {W K T R : Type 0} (tc : TalosClient W K T R) where
  unfoldable pub maintenance_client : Endpoints → M W T
  maintenance_client e = wrap_err "failed to create Talos maintenance client" (tc.new_maintenance e)

  unfoldable pub authenticated_client : Endpoints → String → M W T
  authenticated_client e cfg = do
    config ← wrap_err "failed to parse talosconfig" (tc.parse_config cfg)
    wrap_err "failed to create authenticated Talos client" (tc.new_authenticated e config)

  abbrev pub client_for : Endpoints → Option String → M W T
  client_for e none = maintenance_client e
  client_for e (some cfg) = authenticated_client e cfg

  unfoldable pub apply_machine_config : Endpoints → String → Option String → M W (Unit {0})
  apply_machine_config e config cfg = do
    client ← client_for e cfg
    wrap_err "failed to apply machine configuration" (tc.apply_configuration client config)

  unfoldable pub version_probe_with_client : M W T → M W String
  version_probe_with_client build_client = do
    client ← build_client
    messages ← wrap_err "version probe failed" (tc.version client)
    lift (first_tag messages)

  unfoldable pub version_probe_authenticated : Endpoints → String → M W String
  unfolding version_probe_with_client
  version_probe_authenticated e cfg = version_probe_with_client (authenticated_client e cfg)

  unfoldable pub pull_installer_image : T → String → M W (Unit {0})
  pull_installer_image client image = do
    stream ← tc.pull client image
    lift (pull_end stream.failure)

  unfoldable pub run_lifecycle_upgrade : T → String → M W (Unit {0})
  run_lifecycle_upgrade client image = do
    stream ← tc.upgrade client image
    lift (upgrade_loop "" stream.received stream.failure)

  abbrev unauthorized_or : Err → M W String
  unauthorized_or e = if tc.is_permission_denied e then raise boot_id_unauthorized else raise e

  unfoldable pub read_boot_id : T → M W String
  read_boot_id client =
      handle (tc.read client "/proc/sys/kernel/random/boot_id") unauthorized_or λ reader.
        handle (tc.read_all reader) unauthorized_or
          λ body. do tc.close reader; pure (trim_space body)

  unfoldable pub reboot_machine : T → M W (Unit {0})
  reboot_machine client = tc.reboot_machine client

  -- The boot id, empty where it could not be read; then the reboot, whose error is dropped.
  unfoldable pub upgrade_machine : Endpoints → String → String → M W String
  unfolding reboot_machine
  upgrade_machine e cfg image = do
    client ← authenticated_client e cfg
    wrap_err "failed to pull installer image" (pull_installer_image client image)
    wrap_err "failed to upgrade machine" (run_lifecycle_upgrade client image)
    boot_id ← handle (read_boot_id client) (λ x. pure "") pure
    handle (reboot_machine client) (λ x. pure boot_id) (λ x. pure boot_id)

  unfoldable pub boot_id_authenticated : Endpoints → String → M W String
  boot_id_authenticated e cfg = do client ← authenticated_client e cfg; read_boot_id client

  abbrev answers : {A : Type 0} → Result A × W → Bool × W
  answers (ok a, w) = (true, w)
  answers (err e, w) = (false, w)

  unfoldable pub probe_maintenance : Endpoints → W → Bool × W
  probe_maintenance e w = answers ((maintenance_client e >>= tc.version) w)

  unfoldable pub probe_authenticated : Endpoints → String → W → Bool × W
  probe_authenticated e cfg w = answers ((authenticated_client e cfg >>= tc.version) w)

  -- A nil talosconfig does not parse.
  unfoldable pub restart_service : Endpoints → String → String → M W (Unit {0})
  restart_service e cfg service = do
    client ← authenticated_client e cfg
    wrap_err "failed to restart service" (tc.service_restart client service)

  unfoldable pub service_running : Endpoints → String → String → M W Bool
  service_running e cfg service = do
    client ← authenticated_client e cfg
    services ← wrap_err "failed to inspect service" (tc.service_info client service)
    pure (any is_running services)

  unfoldable pub reset_machine : Endpoints → Option String → M W (Unit {0})
  reset_machine e cfg = do
    client ← client_for e cfg
    wrap_err "failed to reset machine" (tc.reset_generic client reset_request)

  unfoldable pub detect_system_disk : Endpoints → Option String → M W String
  detect_system_disk e cfg = do
    client ← client_for e cfg
    answer ← wrap_err "failed to query disks" (tc.disks client)
    lift (first_selected answer)

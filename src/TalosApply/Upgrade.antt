-- ===== src/TalosApply/Upgrade.antt =====
-- When an upgrade counts as done (runLifecycleUpgrade of pkg/controller/talos_apply.go).
use cluster_api_provider_bri.Prelude.{
  String, Option, none, some, List, [], ◌∷◌, ◌≡◌, refl, arith, if◌then◌else◌,
}
use cluster_api_provider_bri.Prelude.Int.{ℤ, is_zero}
use cluster_api_provider_bri.Endpoints.{Endpoints}
use cluster_api_provider_bri.Go.{Err, upgrade_exit_code, wrap}
use cluster_api_provider_bri.Go.Action.{
  Result, ok, err, M, handle, branch, continue, pure, wrap_err, ◌>>=◌, ◌>>◌,
}
use cluster_api_provider_bri.TalosApply.{
  Progress, message, exit_code, no_progress, Stream, TalosClient, at_end, upgrade_loop,
  run_lifecycle_upgrade, authenticated_client, read_boot_id, upgrade_machine, pull_installer_image,
  pull_end,
}

-- The first exit code of a stream.
abbrev pub first_exit : List Progress → Option ℤ
first_exit [] = none
first_exit (exit_code c ∷ l) = some c
first_exit (message s ∷ l) = first_exit l
first_exit (no_progress ∷ l) = first_exit l

-- The last message before the first exit code, `last` if there is none.
abbrev pub last_message : String → List Progress → String
last_message last [] = last
last_message last (exit_code c ∷ l) = last
last_message last (message s ∷ l) = last_message s l
last_message last (no_progress ∷ l) = last_message last l

-- The result for an exit code, or for the end of the stream without one.
abbrev pub verdict : Option ℤ → String → Option Err → Result (Unit {0})
verdict none last failure = at_end last failure
verdict (some c) last failure = if is_zero c then ok tt else err (upgrade_exit_code c last)

upgrade_loop-verdict :
    (last : String) (l : List Progress) (failure : Option Err)
    → upgrade_loop last l failure ≡ verdict (first_exit l) (last_message last l) failure
unfolding upgrade_loop
upgrade_loop-verdict last [] failure = refl
upgrade_loop-verdict last (exit_code c ∷ l) failure = refl
upgrade_loop-verdict last (message s ∷ l) failure = upgrade_loop-verdict s l failure
upgrade_loop-verdict last (no_progress ∷ l) failure = upgrade_loop-verdict last l failure

-- Once the stream is open, runLifecycleUpgrade succeeds exactly if the first exit code is 0. Another
-- exit code is the error, with the last message before it; a stream that ends without one is an
-- error too, code -1 at io.EOF and otherwise the error of the stream. Nothing after the first exit
-- code is read.
pub run_lifecycle_upgrade-verdict :
    {W K T R : Type 0} (tc : TalosClient W K T R) (client : T) (image : String)
    (stream : Stream Progress) (w w' : W)
    → tc.upgrade client image w ≡ (ok stream, w')
    → run_lifecycle_upgrade tc client image w
      ≡ (verdict (first_exit stream.received) (last_message "" stream.received) stream.failure, w')
unfolding run_lifecycle_upgrade
run_lifecycle_upgrade-verdict tc client image stream w w' opened =
    let looped = upgrade_loop-verdict "" stream.received stream.failure in grind arith

-- The boot id that was read, empty if it could not be.
abbrev pub boot_id_or_empty : Result String → String
boot_id_or_empty (ok id) = id
boot_id_or_empty (err e) = ""

module _ {W A : Type 0} where
  branch-same :
      (r : Result (Unit {0}) × W) (a : A) → branch r (λ x. pure a) (λ x. pure a) ≡ (ok a, r.1)
  branch-same (ok u, w) a = refl
  branch-same (err e, w) a = refl

module _ {W K T R : Type 0} (tc : TalosClient W K T R) where
  -- What is to follow an install: the boot id is read, and then the machine is told to reboot.
  abbrev pub reboot_after : T → W → Result String × W
  reboot_after client w =
      let r = read_boot_id tc client w in
      (ok (boot_id_or_empty r.0), (tc.reboot_machine client r.1).1)

  -- What is to come of a pull that ended in `pulled`, in the world `w`, and of an install that
  -- ended in `installed`, in the world `w'`.
  abbrev pub upgraded : T → Option Err → Result (Unit {0}) → W → W → Result String × W
  upgraded client (some e) installed w w' = (err (wrap "failed to pull installer image" e), w)
  upgraded client none (err e) w w' = (err (wrap "failed to upgrade machine" e), w')
  upgraded client none (ok u) w w' = reboot_after client w'

  -- The calls of upgradeMachine after the install.
  abbrev finish : T → M W String
  finish client = handle (read_boot_id tc client) (λ x. pure "") pure >>= λ boot_id.
      handle (tc.reboot_machine client) (λ x. pure boot_id) (λ x. pure boot_id)

  finish_from :
      (client : T) (r : Result String × W)
      → continue
          (branch r (λ x. pure "") pure)
          (λ boot_id. handle (tc.reboot_machine client) (λ x. pure boot_id) (λ x. pure boot_id))
        ≡ (ok (boot_id_or_empty r.0), (tc.reboot_machine client r.1).1)
  finish_from client (ok id, w) = branch-same (tc.reboot_machine client w) id
  finish_from client (err e, w) = branch-same (tc.reboot_machine client w) ""

  finish-reboot_after : (client : T) (w : W) → finish client w ≡ reboot_after client w
  finish-reboot_after client w = finish_from client (read_boot_id tc client w)

  pull_installer_image-end :
      (client : T) (image : String) (pulled : Stream (Unit {0})) (w w' : W)
      → tc.pull client image w ≡ (ok pulled, w')
      → pull_installer_image tc client image w ≡ (pull_end pulled.failure, w')
  unfolding pull_installer_image
  pull_installer_image-end client image pulled w w' pulls = rw pulls refl

  installed-upgraded :
      (client : T) (installed : Result (Unit {0})) (w w' : W)
      → (wrap_err "failed to upgrade machine" (λ v. (installed, w')) >> finish client) w
        ≡ upgraded client none installed w w'
  installed-upgraded client (ok u) w w' = finish-reboot_after client w'
  installed-upgraded client (err e) w w' = refl

  pulled-upgraded :
      (client : T) (image : String) (failure : Option Err) (installed : Result (Unit {0}))
      (w w' : W)
      → run_lifecycle_upgrade tc client image w ≡ (installed, w')
      → (wrap_err "failed to pull installer image" (λ v. (pull_end failure, w))
            >> (wrap_err "failed to upgrade machine" (run_lifecycle_upgrade tc client image)
                >> finish client))
          w
        ≡ upgraded client failure installed w w'
  pulled-upgraded client image none installed w w' ended =
      rw ended (installed-upgraded client installed w w')
  pulled-upgraded client image (some e) installed w w' ended = refl

  -- Once the client and both streams are open, a broken pull ends upgradeMachine before the install.
  -- An install without exit code 0 is an error, and nothing is sent after it. After exit code 0 the
  -- machine is told to reboot, and upgradeMachine succeeds whatever the reboot and the reading of
  -- the boot id answer; it returns the boot id read before the reboot, empty if that failed.
  pub upgrade_machine-verdict :
      (e : Endpoints) (cfg image : String) (client : T) (pulled : Stream (Unit {0}))
      (stream : Stream Progress) (w w₁ w₂ w₃ : W)
      → authenticated_client tc e cfg w ≡ (ok client, w₁)
      → tc.pull client image w₁ ≡ (ok pulled, w₂)
      → tc.upgrade client image w₂ ≡ (ok stream, w₃)
      → upgrade_machine tc e cfg image w
        ≡ upgraded client pulled.failure
            (verdict (first_exit stream.received) (last_message "" stream.received) stream.failure)
            w₂
            w₃
  unfolding upgrade_machine
  upgrade_machine-verdict e cfg image client pulled stream w w₁ w₂ w₃ opened pulls installs =
      let ended = run_lifecycle_upgrade-verdict tc client image stream w₂ w₃ installs in
      rw (opened, pull_installer_image-end client image pulled w₁ w₂ pulls)
        (pulled-upgraded client image pulled.failure _ w₂ w₃ ended)

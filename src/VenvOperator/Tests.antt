-- ===== src/VenvOperator/Tests.antt =====
-- A concrete update of anima/kernel/venv_operator.py; an environment is a number.
use anima.Systemd.{stopped, stop_raises}
use anima.Prelude.{[], ◌∷◌, refl, true, false, none, some, inr, ℕ, ◌≡◌, ◌⊎◌}
use anima.VenvOperator.{
  VenvHost, VenvRun, VenvDepSpec, Places, live_venv, old_venv, candidate_venv, absent, intact,
  exited, written, snapshot_of, operate_on_venv, arm_and_swap_venv, preflight_venv,
  boot_venv_commit,
}
use anima.VenvOperator.Preflight.{Staged, Proves, preflight_venv_is_isolated}
use anima.VenvOperator.Swap.{Ends, arm_and_swap_venv-Ends}
use anima.VenvOperator.Boot.{Boots, boot_venv_commit_lem}
use anima.VenvOperator.Gate.{Result, operate_on_venv_acts_only_if}

abbrev smooth : VenvRun ℕ
smooth = record {
  state_id = "s";
  frozen_before = some "b";
  staging_raises = false;
  create = exited 0 2;
  install = exited 0 3;
  check_import = exited 0 3;
  smoke = exited 0 3;
  frozen_after = some "a";
  ledger_raises = false;
  state_dir_raises = false;
  write = written;
  arm_raises = false;
  old_dir_raises = false;
  first_rename_raises = false;
  second_rename_raises = false;
  disarm = stopped;
  candidate_left = none;
  unlink_raises = false;
  reap_raises = false;
  probe = true;
}

abbrev only_live : Places ℕ
only_live live_venv = some 1
only_live (old_venv id) = none
only_live (candidate_venv id) = none

abbrev host : VenvHost ℕ
host = record { places = only_live; state_file = absent; armed = none; ledger = [] }

abbrev update : VenvDepSpec
update = record { requirements = "httpx" ∷ []; op_type = "dep_update" }

operate_on_venv_acts_only_if_example :
    let result = operate_on_venv smooth true true update host in
    (result.1 ≡ host) ⊎ ((true ≡ true) × (true ≡ true) × Result smooth update host result)
operate_on_venv_acts_only_if_example = operate_on_venv_acts_only_if smooth update host true true

preflight_venv_is_isolated_example :
    let result = preflight_venv smooth update host in
    Proves smooth update host result × Staged smooth host result.1
preflight_venv_is_isolated_example = preflight_venv_is_isolated smooth update host

arm_and_swap_venv-Ends_example :
    let h = (preflight_venv smooth update host).1 in
    Ends smooth "s" "b" "a" h (arm_and_swap_venv smooth (snapshot_of "s" "b" "a") h)
arm_and_swap_venv-Ends_example =
    arm_and_swap_venv-Ends smooth "s" "b" "a" (preflight_venv smooth update host).1

abbrev after_swap : VenvHost ℕ
after_swap = (operate_on_venv smooth true true update host).1

after_swap_pending : after_swap.state_file ≡ intact (snapshot_of "s" "b" "a")
unfolding operate_on_venv
after_swap_pending = refl

boot_venv_commit_lem_example :
    Boots smooth "s" "b" "a" after_swap (boot_venv_commit smooth after_swap)
boot_venv_commit_lem_example =
    boot_venv_commit_lem smooth "s" "b" "a" after_swap (inr (inr after_swap_pending))

-- The candidate is live and the former environment is kept until the boot.
swapped_places :
    (after_swap.places live_venv ≡ some 3)
    × (after_swap.places (old_venv "s") ≡ some 1)
    × (after_swap.armed ≡ some "s")
unfolding operate_on_venv
swapped_places = (refl, refl, refl)

-- A timer that cannot be stopped outlives the environment that it would bring back.
stuck_timer :
    let h = (boot_venv_commit (record smooth { disarm = stop_raises }) after_swap).1 in
    (h.armed ≡ some "s") × (h.places (old_venv "s") ≡ none)
unfolding operate_on_venv boot_venv_commit
stuck_timer = (refl, refl)

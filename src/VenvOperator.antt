-- ===== src/VenvOperator.antt =====
-- anima/kernel/venv_operator.py: a new virtual environment is built and proven beside the live one,
-- and swapped in under a timer that renames the old one back. `venv_root` and `staging_root` are one
-- directory, as by default; what goes wrong in a call is its `VenvRun`.
unfoldable pub use Host.*
use anima.Systemd.{Stop, stopped, stop_ignored, stop_raises, after_stop, systemctl_stop}
use anima.Python.{
  ok, raised, ◌>>=◌, ◌>>◌, Action, Exn, modify, raise, pure, os_error, raise_if,
  venv_preflight_error, try_except, other_error, gets, venv_state_error,
}
use anima.Prelude.{
  [], ◌∷◌, true, false, none, some, String, Bool, Option, ℕ, List, if◌then◌else◌, str_eq, ◌||◌, not,
  ◌==◌, is_none,
}
pub mod Host
pub mod Swap
pub mod Preflight
pub mod Boot
pub mod Gate
mod Tests

module _ {V : Type 0} where
  unfoldable pub put : Place → Option V → Places V → Places V
  put p v places q = if place_eq p q then v else places q

  abbrev pub set_place : Place → Option V → Action (VenvHost V) Unit
  set_place p v = modify (λ h. record h { places = put p v h.places })

  abbrev pub or_raise : Option String → Exn → Action (VenvHost V) String
  or_raise none e = raise e
  or_raise (some hash) e = pure hash

  -- A command whose exit status is tested.
  abbrev pub prove : Place → Command V → Action (VenvHost V) Unit
  prove p not_run = raise os_error
  prove p (exited code v) = do set_place p (some v); raise_if (not (code == 0)) venv_preflight_error

  abbrev pub install_deps : Place → List String → Command V → Action (VenvHost V) Unit
  install_deps p [] command = pure tt
  install_deps p (r ∷ requirements) command = prove p command

  abbrev pub write_state : Write → VenvSnapshot → Action (VenvHost V) Unit
  write_state written snap = modify (λ h. record h { state_file = intact snap })
  write_state write_fails snap = raise os_error
  write_state write_tears snap = do modify (λ h. record h { state_file = torn }); raise os_error

  -- `os.rename` of a directory
  unfoldable pub rename : Bool → Place → Place → Action (VenvHost V) Unit
  unfolding put
  rename raises src dest h =
      if raises || is_none (h.places src) || not (is_none (h.places dest))
      then (raised os_error, h)
      else (ok tt, record h { places = put src none (put dest (h.places src) h.places) })

  module _ (run : VenvRun V) where
    unfoldable pub build_candidate : List String → Action (VenvHost V) String
    unfolding put
    build_candidate requirements = do
      let p = candidate_venv run.state_id
      prove p run.create
      install_deps p requirements run.install
      prove p run.check_import
      prove p run.smoke
      or_raise run.frozen_after os_error

    -- Both `except` clauses of `preflight_venv`; `rmtree` ignores its errors, and may leave something.
    abbrev pub clean_up : Exn → Action (VenvHost V) String
    clean_up e = do
      set_place (candidate_venv run.state_id) run.candidate_left
      raise venv_preflight_error

    unfoldable pub preflight_venv : VenvDepSpec → Action (VenvHost V) VenvSnapshot
    unfolding put build_candidate
    preflight_venv dep_spec = do
      frozen_before ← or_raise run.frozen_before os_error
      raise_if run.staging_raises os_error
      frozen_after ← try_except (build_candidate dep_spec.requirements) clean_up
      pure (snapshot_of run.state_id frozen_before frozen_after)

    abbrev pub unlink_state : Action (VenvHost V) Unit
    unlink_state = do
      raise_if run.unlink_raises os_error
      modify (λ h. record h { state_file = absent })

    abbrev pub arm_deadman : Bool → String → Action (VenvHost V) Unit
    arm_deadman true state_id = do unlink_state; raise other_error
    arm_deadman false state_id = modify (λ h. record h { armed = some state_id })

    abbrev pub disarm_deadman : Action (VenvHost V) Unit
    disarm_deadman = systemctl_stop (modify (λ h. record h { armed = none })) run.disarm

    abbrev pub swap_places : VenvSnapshot → Action (VenvHost V) Unit
    swap_places snap = do
      rename run.first_rename_raises live_venv snap.old_place
      rename run.second_rename_raises snap.candidate live_venv

    abbrev pub give_up : Exn → Action (VenvHost V) Unit
    give_up e = do disarm_deadman; unlink_state; raise e

    -- One that returns has ended the process.
    unfoldable pub arm_and_swap_venv : VenvSnapshot → Action (VenvHost V) Unit
    unfolding rename
    arm_and_swap_venv snap = do
      raise_if run.state_dir_raises os_error
      pending ← gets (λ h. is_pending h.state_file)
      raise_if pending venv_state_error
      write_state run.write snap
      arm_deadman run.arm_raises snap.state_id
      raise_if run.old_dir_raises os_error
      try_except (swap_places snap) give_up

    abbrev pub record_outcome : VenvRow → Action (VenvHost V) Unit
    record_outcome row h =
        if run.ledger_raises then (ok tt, h) else (ok tt, record h { ledger = row ∷ h.ledger })

    abbrev pub applied_row : VenvDepSpec → VenvSnapshot → Bool → VenvRow
    applied_row dep_spec snap autonomous = record {
      op_type = dep_spec.op_type;
      frozen_hash_before = snap.frozen_hash_before;
      frozen_hash_after = snap.frozen_hash_after;
      outcome = "applied";
      autonomous = autonomous;
    }

    unfoldable pub execute_approved_venv_op :
        VenvDepSpec → Bool → Action (VenvHost V) VenvOperateOutcome
    unfolding preflight_venv arm_and_swap_venv
    execute_approved_venv_op dep_spec autonomous = do
      snap ← preflight_venv dep_spec
      record_outcome (applied_row dep_spec snap autonomous)
      arm_and_swap_venv snap
      pure (record {
        auto_applied = true;
        proposed = false;
        reason = "preflight passed; armed and swapped (owner-approved)";
        frozen_hash_after = some snap.frozen_hash_after;
      })

    abbrev pub proposal : String → VenvOperateOutcome
    proposal reason = record {
      auto_applied = false;
      proposed = true;
      reason = reason;
      frozen_hash_after = none;
    }

    -- `graduated` is that of the class "venv_dep_update" at the venv root.
    unfoldable pub operate_on_venv :
        Bool → Bool → VenvDepSpec → Action (VenvHost V) VenvOperateOutcome
    unfolding execute_approved_venv_op
    operate_on_venv enabled graduated dep_spec =
        if not enabled
        then pure (proposal "operator_venv_enabled=False (dormant — owner must activate)")
        else if not graduated
        then pure (proposal "venv_dep_update operation class not yet graduated")
        else execute_approved_venv_op dep_spec true >>= λ outcome. pure (record {
          auto_applied = true;
          proposed = false;
          reason = "preflight passed; armed and swapped to candidate venv (autonomous)";
          frozen_hash_after = none;
        })

    -- What a boot does once the new environment is healthy.
    abbrev pub commit : VenvSnapshot → VenvHost V → VenvHost V
    commit snap h = record h {
      armed = after_stop run.disarm h.armed;
      places = if run.reap_raises then h.places else put snap.old_place none h.places;
      state_file = if run.unlink_raises then h.state_file else absent;
    }

    abbrev pub boot_file : StateFile → VenvHost V → String × VenvHost V
    boot_file absent h = ("no_pending", h)
    boot_file torn h = ("liveness_failed", h)
    boot_file (intact snap) h =
        if run.probe then ("committed", commit snap h) else ("liveness_failed", h)

    -- It does not raise.
    unfoldable pub boot_venv_commit : VenvHost V → String × VenvHost V
    unfolding put
    boot_venv_commit h = boot_file h.state_file h

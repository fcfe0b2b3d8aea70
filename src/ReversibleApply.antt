-- ===== src/ReversibleApply.antt =====
-- anima/kernel/reversible_apply.py: a fix branch is merged, the service restarted, and the result
-- gated on its health. The sandboxed shell, the service manager, the health check and
-- `_is_anima_source_tree` are interfaces to a host with states `W`. Times are whole numbers of one
-- unit, and the poll interval is not zero.
pub mod Gate
pub mod Rollback
mod Tests
use anima.Python.{sandbox_error}
use anima.Python.{
  ◌>>=◌, ◌>>◌, Action, Exn, try_except, pure, raise_if, raise, reversible_apply_error,
}
use anima.Prelude.{
  true, false, none, some, zero, suc, ℕ, Bool, Option, String, ◌+◌, concat, if◌then◌else◌, not, ltb,
  ◌==◌,
}

-- What `run_bash` reports.
pub record BashResult : Type 0 where
  pub exit_code : ℕ
  pub stdout : String
  pub stderr : String

-- The command lines: `git rev-parse HEAD`, `git merge --ff-only {fix_branch}` and
-- `git reset --hard {before_sha}`.
pub data GitCommand : Type 0 where
  rev_parse : GitCommand
  merge_ff_only : (fix_branch : String) → GitCommand
  reset_hard : (sha : String) → GitCommand

pub record ApplyHost (W : Type 0) : Type 0 where
  pub supports_reversible_apply : Bool
  pub is_anima_source_tree : String → Action W Bool
  pub run_bash : GitCommand → String → Action W BashResult
  pub restart : String → Action W Bool
  pub health_check : Action W Bool
  -- `stdout.strip()`
  pub stripped : String → String

-- The messages of `detail`.
pub data ApplyDetail : Type 0 where
  rev_parse_raised rev_parse_failed merge_raised merge_failed restart_failed not_healthy :
      ApplyDetail
  healthy_after : (elapsed : ℕ) → ApplyDetail

pub record ApplyResult : Type 0 where
  pub applied : Bool
  pub healthy : Bool
  pub rolled_back : Bool
  pub before_sha : Option String
  pub after_sha : Option String
  pub detail : ApplyDetail

abbrev pub not_applied : Option String → ApplyDetail → ApplyResult
not_applied before_sha detail = record {
  applied = false;
  healthy = false;
  rolled_back = false;
  before_sha = before_sha;
  after_sha = none;
  detail = detail;
}

abbrev pub reverted : String → String → ApplyDetail → ApplyResult
reverted before_sha after_sha detail = record {
  applied = true;
  healthy = false;
  rolled_back = true;
  before_sha = some before_sha;
  after_sha = some after_sha;
  detail = detail;
}

abbrev pub healthy_result : String → String → ℕ → ApplyResult
healthy_result before_sha after_sha elapsed = record {
  applied = true;
  healthy = true;
  rolled_back = false;
  before_sha = some before_sha;
  after_sha = some after_sha;
  detail = healthy_after elapsed;
}

-- `except SandboxError: handler`; any other exception goes on.
abbrev pub on_sandbox_error : {S A : Type 0} → Action S A → Exn → Action S A
on_sandbox_error handler sandbox_error = handler
on_sandbox_error handler e = raise e

module _ {W : Type 0} (host : ApplyHost W) (timeout_s poll : ℕ) where
  abbrev pub check_health : Action W Bool
  check_health = try_except host.health_check (λ e. pure false)

  -- One round of the `while` loop at a time, before the rounds that are left.
  unfoldable pub gate_round : ℕ → Action W (Option ℕ) → Action W (Option ℕ)
  gate_round elapsed rest =
      if ltb elapsed timeout_s
      then (do healthy ← check_health; if healthy then pure (some (elapsed + suc poll)) else rest)
      else pure none

  -- The loop from a time: the time at which the service was healthy, if it was.
  unfoldable pub gate : ℕ → ℕ → Action W (Option ℕ)
  gate zero elapsed = pure none
  gate (suc fuel) elapsed = gate_round elapsed (gate fuel (elapsed + suc poll))

  module _ (repo_root fix_branch service_name : String) where
    -- `_rollback`: a failed reset or restart is only logged.
    unfoldable pub rollback : String → Action W Unit
    rollback before_sha = do
      try_except (do host.run_bash (reset_hard before_sha) repo_root; pure tt)
          (on_sandbox_error (pure tt))
      try_except (do host.restart service_name; pure tt) (λ e. pure tt)

    abbrev pub settled : String → String → Option ℕ → Action W ApplyResult
    settled before_sha after_sha (some elapsed) = pure (healthy_result before_sha after_sha elapsed)
    settled before_sha after_sha none = do
      rollback before_sha
      pure (reverted before_sha after_sha not_healthy)

    abbrev pub restarted : String → String → Bool → Action W ApplyResult
    restarted before_sha after_sha false = do
      rollback before_sha
      pure (reverted before_sha after_sha restart_failed)
    restarted before_sha after_sha true = do
      healthy ← gate timeout_s 0
      settled before_sha after_sha healthy

    -- The lines after the merge; the second `git rev-parse` is in no `try`.
    unfoldable pub after_merge : String → Action W ApplyResult
    after_merge before_sha = do
      after ← host.run_bash rev_parse repo_root
      restart_ok ← host.restart service_name
      restarted before_sha (host.stripped after.stdout) restart_ok

    -- A command whose `SandboxError` becomes `none`.
    abbrev pub caught : GitCommand → Action W (Option BashResult)
    caught cmd =
        try_except (do result ← host.run_bash cmd repo_root; pure (some result))
          (on_sandbox_error (pure none))

    abbrev pub merged : String → Option BashResult → Action W ApplyResult
    merged before_sha none = pure (not_applied (some before_sha) merge_raised)
    merged before_sha (some merge) =
        if merge.exit_code == 0
        then after_merge before_sha
        else pure (not_applied (some before_sha) merge_failed)

    abbrev pub parsed : Option BashResult → Action W ApplyResult
    parsed none = pure (not_applied none rev_parse_raised)
    parsed (some before) =
        if before.exit_code == 0
        then (do
          merge ← caught (merge_ff_only fix_branch)
          merged (host.stripped before.stdout) merge)
        else pure (not_applied none rev_parse_failed)

    unfoldable pub reversible_apply : Action W ApplyResult
    reversible_apply = do
      raise_if (not host.supports_reversible_apply) reversible_apply_error
      own ← host.is_anima_source_tree repo_root
      raise_if own reversible_apply_error
      before ← caught rev_parse
      parsed before

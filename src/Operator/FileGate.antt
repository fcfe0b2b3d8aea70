-- ===== src/Operator/FileGate.antt =====
-- `operate_on_file` and `execute_approved_file_edit` of anima/kernel/operator.py.
pub mod Autonomy
use anima.Python.{ok, ◌>>=◌, ◌>>◌, Action, pure, gets, raise, operator_error}
use anima.Prelude.{
  true, false, none, some, Bool, Option, String, ℕ, or_default, not, ◌≡◌, is_none, ◌&&◌,
}
use anima.Arch.{Bytes, FileOperator}
use anima.Operator.Contract.{OperationResult, run_reversible_operation}
use anima.Operator.FileEdit.{file_edit}
use anima.Operator.Kernel.{
  ManagedRow, Kernel, Settings, Environment, on_host, graduated, record_outcome, run_and_record,
}

pub record OperateOutcome : Type 0 where
  pub auto_applied : Bool
  pub proposed : Bool
  pub operation_result : Option OperationResult
  pub proposed_content : Option Bytes
  pub proposed_validator_cmd : Option String
  pub reason : String

abbrev pub proposal : Bytes → Option String → String → OperateOutcome
proposal new_content validator_cmd reason = record {
  auto_applied = false;
  proposed = true;
  operation_result = none;
  proposed_content = some new_content;
  proposed_validator_cmd = validator_cmd;
  reason = reason;
}

abbrev pub applied_outcome : OperationResult → OperateOutcome
applied_outcome result = record {
  auto_applied = true;
  proposed = false;
  operation_result = some result;
  proposed_content = none;
  proposed_validator_cmd = none;
  reason = result.detail;
}

module _ {W : Type 0} (env : Environment W) where
  -- The constructor and the contract, on the host.
  unfoldable pub edit_on_host : FileOperator W → String → Bytes → String → Action W OperationResult
  unfolding file_edit
  edit_on_host f target_path new_content validator_cmd = do
    edit ← file_edit env.shell f target_path new_content validator_cmd
    run_reversible_operation edit

  module _ (user_id target_path : String) (new_content : Bytes) (operation_class : String)
      (file_operator : Option (FileOperator W)) (now : Option ℕ) where
    -- The lines that both functions share: run the edit, record its outcome.
    abbrev pub edit_and_record : String → Action (Kernel W) OperationResult
    edit_and_record validator_cmd =
        run_and_record
          (edit_on_host (or_default file_operator env.file_operator) target_path new_content
            validator_cmd)
          user_id operation_class target_path (or_default now env.clock)

    abbrev pub when_graduated : String → Bool → Action (Kernel W) OperateOutcome
    when_graduated validator_cmd false =
        pure (proposal new_content (some validator_cmd) "operation not yet graduated")
    when_graduated validator_cmd true = do
      result ← edit_and_record validator_cmd
      pure (applied_outcome result)

    abbrev pub when_enabled : String → Bool → Action (Kernel W) OperateOutcome
    when_enabled validator_cmd false =
        pure (proposal new_content (some validator_cmd) "operator_enabled=False")
    when_enabled validator_cmd true = do
      track ← gets (λ k. graduated k user_id operation_class target_path)
      when_graduated validator_cmd track

    abbrev pub when_managed : Option ManagedRow → Action (Kernel W) OperateOutcome
    when_managed none =
        pure (proposal new_content none "target not in managed_file_targets allowlist")
    when_managed (some row) = when_enabled row.validator_cmd env.settings.operator_enabled

    unfoldable pub operate_on_file : Action (Kernel W) OperateOutcome
    operate_on_file = do
      managed ← gets (λ k. k.managed_file_targets user_id target_path)
      when_managed managed

    abbrev pub execute_managed : Option ManagedRow → Action (Kernel W) OperationResult
    execute_managed none = raise operator_error
    execute_managed (some row) = edit_and_record row.validator_cmd

    unfoldable pub execute_approved_file_edit : Action (Kernel W) OperationResult
    execute_approved_file_edit = do
      managed ← gets (λ k. k.managed_file_targets user_id target_path)
      execute_managed managed

    -- The three conditions of the docstring.
    abbrev pub may_auto_apply : Kernel W → Bool
    may_auto_apply k =
        not (is_none (k.managed_file_targets user_id target_path))
        && (env.settings.operator_enabled && graduated k user_id operation_class target_path)

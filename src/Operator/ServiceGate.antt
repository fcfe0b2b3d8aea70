-- ===== src/Operator/ServiceGate.antt =====
-- `operate_on_service` and `execute_approved_service_action` of anima/kernel/operator.py.
pub mod Autonomy
use anima.Operator.ServiceAction.{service_action}
use anima.Python.{◌>>=◌, ◌>>◌, Action, pure, gets, raise, operator_error}
use anima.Prelude.{
  true, false, none, some, Bool, String, Option, concat, ℕ, or_default, not, is_none, ◌&&◌,
}
use anima.Arch.{ServiceManager}
use anima.Operator.Contract.{OperationResult, run_reversible_operation}
use anima.Operator.Kernel.{ManagedRow, Kernel, Environment, graduated, run_and_record}

pub record ServiceOperateOutcome : Type 0 where
  pub auto_applied : Bool
  pub proposed : Bool
  pub operation_result : Option OperationResult
  pub proposed_action : Option String
  pub proposed_validator_cmd : Option String
  pub reason : String

abbrev pub service_proposal : String → Option String → String → ServiceOperateOutcome
service_proposal action validator_cmd reason = record {
  auto_applied = false;
  proposed = true;
  operation_result = none;
  proposed_action = some action;
  proposed_validator_cmd = validator_cmd;
  reason = reason;
}

abbrev pub applied_service_outcome : OperationResult → ServiceOperateOutcome
applied_service_outcome result = record {
  auto_applied = true;
  proposed = false;
  operation_result = some result;
  proposed_action = none;
  proposed_validator_cmd = none;
  reason = result.detail;
}

-- `f"service_{action}"`
abbrev pub service_class : String → String
service_class action = concat "service_" action

module _ {W : Type 0} (env : Environment W) where
  -- The constructor and the contract, on the host.
  unfoldable pub act_on_host :
      ServiceManager W → String → String → String → Action W OperationResult
  unfolding service_action
  act_on_host m service_name action validator_cmd = do
    svc_op ← service_action env.shell m service_name action validator_cmd
    run_reversible_operation svc_op

  module _ (user_id service_name action : String) (service_manager : Option (ServiceManager W))
      (now : Option ℕ) where
    -- The lines that both functions share: run the action, record its outcome.
    abbrev pub act_and_record : String → Action (Kernel W) OperationResult
    act_and_record validator_cmd =
        run_and_record
          (act_on_host (or_default service_manager env.service_manager) service_name action
            validator_cmd)
          user_id (service_class action) service_name (or_default now env.clock)

    abbrev pub service_when_graduated : String → Bool → Action (Kernel W) ServiceOperateOutcome
    service_when_graduated validator_cmd false =
        pure (service_proposal action (some validator_cmd) "operation not yet graduated")
    service_when_graduated validator_cmd true = do
      result ← act_and_record validator_cmd
      pure (applied_service_outcome result)

    abbrev pub service_when_enabled : String → Bool → Action (Kernel W) ServiceOperateOutcome
    service_when_enabled validator_cmd false =
        pure (service_proposal action (some validator_cmd) "operator_service_enabled=False")
    service_when_enabled validator_cmd true = do
      track ← gets (λ k. graduated k user_id (service_class action) service_name)
      service_when_graduated validator_cmd track

    abbrev pub service_when_managed : Option ManagedRow → Action (Kernel W) ServiceOperateOutcome
    service_when_managed none =
        pure (service_proposal action none "target not in managed_service_targets allowlist")
    service_when_managed (some row) =
        service_when_enabled row.validator_cmd env.settings.operator_service_enabled

    unfoldable pub operate_on_service : Action (Kernel W) ServiceOperateOutcome
    operate_on_service = do
      managed ← gets (λ k. k.managed_service_targets user_id service_name)
      service_when_managed managed

    abbrev pub execute_managed_service : Option ManagedRow → Action (Kernel W) OperationResult
    execute_managed_service none = raise operator_error
    execute_managed_service (some row) = act_and_record row.validator_cmd

    unfoldable pub execute_approved_service_action : Action (Kernel W) OperationResult
    execute_approved_service_action = do
      managed ← gets (λ k. k.managed_service_targets user_id service_name)
      execute_managed_service managed

    -- The three conditions of the docstring.
    abbrev pub service_may_auto_apply : Kernel W → Bool
    service_may_auto_apply k =
        not (is_none (k.managed_service_targets user_id service_name))
        && (env.settings.operator_service_enabled
            && graduated k user_id (service_class action) service_name)

-- ===== src/Operator/UnitGate.antt =====
-- `operate_on_unit_topology` and `execute_approved_unit_action` of anima/kernel/operator.py.
pub mod Autonomy
use anima.Python.{◌>>=◌, ◌>>◌, Action, pure, gets}
use anima.Prelude.{
  [], ◌∷◌, true, false, none, some, Bool, List, contains, String, Option, concat, ℕ, or_default,
  not, ◌&&◌, is_none,
}
use anima.Arch.{UnitTopologyManager}
use anima.Operator.Contract.{OperationResult, ReversibleOperation, run_reversible_operation}
use anima.Operator.UnitTopology.{UnitSnapshot, unit_action}
use anima.Operator.Kernel.{Kernel, Environment, on_host, graduated, run_and_record}

pub record UnitTopologyOutcome : Type 0 where
  pub auto_applied : Bool
  pub proposed : Bool
  pub operation_result : Option OperationResult
  pub proposed_op : Option String
  pub reason : String

abbrev boot_graph_ops : List String
boot_graph_ops = "enable" ∷ "disable" ∷ "set_default" ∷ []

unfoldable pub is_boot_graph_op : String → Bool
is_boot_graph_op op = contains boot_graph_ops op

abbrev pub unit_proposal : String → String → UnitTopologyOutcome
unit_proposal op reason = record {
  auto_applied = false;
  proposed = true;
  operation_result = none;
  proposed_op = some op;
  reason = reason;
}

abbrev pub applied_unit_outcome : OperationResult → UnitTopologyOutcome
applied_unit_outcome result = record {
  auto_applied = true;
  proposed = false;
  operation_result = some result;
  proposed_op = none;
  reason = result.detail;
}

-- `f"unit_topology_{op}"`
abbrev pub unit_class : String → String
unit_class op = concat "unit_topology_" op

module _ {W : Type 0} (env : Environment W) (user_id unit_name op : String) (floor : List String)
    (mgr : Option (UnitTopologyManager W)) (unit_content target_name : Option String)
    (now : Option ℕ) where
  abbrev manager : UnitTopologyManager W
  manager = or_default mgr env.unit_topology_manager

  -- The constructor: it does not call the manager.
  abbrev pub new_action : Action W (ReversibleOperation W UnitSnapshot)
  new_action = unit_action manager unit_name floor unit_content target_name op

  unfoldable pub change_on_host : Action W OperationResult
  change_on_host = do action ← new_action; run_reversible_operation action

  -- The lines that both functions share: run the action, record its outcome.
  abbrev pub change_and_record : Action (Kernel W) OperationResult
  change_and_record =
      run_and_record change_on_host user_id (unit_class op) unit_name (or_default now env.clock)

  abbrev pub unit_when_graduated : Bool → Action (Kernel W) UnitTopologyOutcome
  unit_when_graduated false = pure (
      unit_proposal op (
        concat "operation ("
          (concat (unit_class op) (concat ", '" (concat unit_name "') not yet graduated")))))
  unit_when_graduated true = do result ← change_and_record; pure (applied_unit_outcome result)

  -- `{unit_name!r}` is written as the name in plain quotes: so for a name without a quote, a
  -- backslash or an unprintable character. Only the text of the reason depends on it.
  abbrev pub unit_when_managed : Option ℕ → Action (Kernel W) UnitTopologyOutcome
  unit_when_managed none = pure (
      unit_proposal op
        (concat "unit '" (concat unit_name "' not in managed_unit_targets allowlist")))
  unit_when_managed (some row) = do
    track ← gets (λ k. graduated k user_id (unit_class op) unit_name)
    unit_when_graduated track

  abbrev pub unit_when_enabled : Bool → Action (Kernel W) UnitTopologyOutcome
  unit_when_enabled false = pure (unit_proposal op "operator_unit_topology_enabled=False")
  unit_when_enabled true = do
    managed ← gets (λ k. k.managed_unit_targets user_id unit_name)
    unit_when_managed managed

  -- The gate order of the docstring: the boot graph, the guards of the constructor, the setting, the
  -- allowlist, the graduation.
  abbrev pub unit_when_runtime : Bool → Action (Kernel W) UnitTopologyOutcome
  unit_when_runtime true = pure (
      unit_proposal op (
        concat "boot-graph op '" (
          concat op
            "' is permanently propose-only (I-UT7); requires human-gated maintenance window")))
  unit_when_runtime false = do
    on_host new_action
    unit_when_enabled env.settings.operator_unit_topology_enabled

  unfoldable pub operate_on_unit_topology : Action (Kernel W) UnitTopologyOutcome
  operate_on_unit_topology = unit_when_runtime (is_boot_graph_op op)

  unfoldable pub execute_approved_unit_action : Action (Kernel W) OperationResult
  execute_approved_unit_action = change_and_record

  -- The conditions of the docstring.
  abbrev pub unit_may_auto_apply : Kernel W → Bool
  unit_may_auto_apply k =
      not (is_boot_graph_op op)
      && (env.settings.operator_unit_topology_enabled
          && (not (is_none (k.managed_unit_targets user_id unit_name))
              && graduated k user_id (unit_class op) unit_name))

-- ===== src/Operator/Kernel.antt =====
-- What the gates of anima/kernel/operator.py read and change: the operator tables of
-- anima/db/__init__.py, the settings, and the host behind the arch backend.
pub mod Recording
use anima.Operator.Contract.{OperationResult}
use anima.Python.{Action, modify, ◌>>=◌, ◌>>◌, pure}
use anima.Prelude.{String, ℕ, Bool, Option}
use anima.Table.{Table}
use anima.TrackRecord.{OperatorRow, get_operator_track_record, update_operator_track_record}
use anima.Arch.{FileOperator, ServiceManager, UnitTopologyManager}
use anima.Operator.Validator.{Shell}

-- A row of `managed_file_targets` or `managed_service_targets`.
pub record ManagedRow : Type 0 where
  pub validator_cmd : String
  pub created_at : ℕ

-- A table whose primary key is two texts.
abbrev pub Allowlist : Type 0 → Type 0
Allowlist V = String → String → Option V

pub record Kernel (W : Type 0) : Type 0 where
  pub managed_file_targets : Allowlist ManagedRow
  pub managed_service_targets : Allowlist ManagedRow
  pub managed_unit_targets : Allowlist ℕ
  pub operator_track_record : Table OperatorRow
  pub host : W

pub record Settings : Type 0 where
  pub operator_enabled : Bool
  pub operator_service_enabled : Bool
  pub operator_unit_topology_enabled : Bool

-- The settings, the clock and the host interfaces (`get_arch()`, `LinuxUnitTopologyManager()`).
pub record Environment (W : Type 0) : Type 0 where
  pub settings : Settings
  pub clock : ℕ
  pub shell : Shell W
  pub file_operator : FileOperator W
  pub service_manager : ServiceManager W
  pub unit_topology_manager : UnitTopologyManager W

module _ {W : Type 0} where
  -- What acts on the host leaves the database alone.
  abbrev pub on_host : {A : Type 0} → Action W A → Action (Kernel W) A
  on_host m k = let (r, w) = m k.host in (r, record k { host = w })

  abbrev pub graduated : Kernel W → String → String → String → Bool
  graduated k user_id operation_class target =
      (get_operator_track_record k.operator_track_record user_id operation_class target).graduated

  -- `db.update_operator_track_record(…)` as a statement.
  abbrev pub record_outcome : String → String → String → Bool → ℕ → Action (Kernel W) Unit
  record_outcome user_id operation_class target verified now = modify λ k. record k {
    operator_track_record =
        (update_operator_track_record k.operator_track_record user_id operation_class target
          verified now).0;
  }

  -- The lines that every gate ends with: run the contract on the host, record its outcome.
  unfoldable pub run_and_record :
      Action W OperationResult → String → String → String → ℕ → Action (Kernel W) OperationResult
  run_and_record m user_id operation_class target now = do
    result ← on_host m
    record_outcome user_id operation_class target result.verified now
    pure result

-- ===== src/Operator/Kernel/Recording.antt =====
-- What running and recording an operation leaves in the database of anima/db/__init__.py.
use anima.Prelude.{arith, String, ℕ, Bool, ◌≡◌}
use anima.Python.{ok, raised, Action, Exn}
use anima.TrackRecord.{advance_state, operator_cycle, get_operator_track_record}
use anima.TrackRecord.Stored.{update-get_operator_track_record}
use anima.Operator.Contract.{OperationResult}
use anima.Operator.Kernel.{Kernel, run_and_record, String, ℕ, Bool, Action}

module _ {W : Type 0} (user_id operation_class target : String) (now : ℕ) where
  -- The record of the operation has advanced by its outcome, and the allowlists are as before.
  pub record Recorded (k k' : Kernel W) (verified : Bool) : Type 0 where
    pub files : k'.managed_file_targets ≡ k.managed_file_targets
    pub services : k'.managed_service_targets ≡ k.managed_service_targets
    pub units : k'.managed_unit_targets ≡ k.managed_unit_targets
    pub advanced :
        get_operator_track_record k'.operator_track_record user_id operation_class target
        ≡ advance_state
            (get_operator_track_record k.operator_track_record user_id operation_class target)
            (operator_cycle verified now)

  pub run_and_record-ok :
      (m : Action W OperationResult) (k k' : Kernel W) (r : OperationResult)
      → run_and_record m user_id operation_class target now k ≡ (ok r, k')
      → (m k.host ≡ (ok r, k'.host)) × Recorded k k' r.verified
  unfolding run_and_record
  run_and_record-ok m k k' r h =
      let step =
        update-get_operator_track_record k.operator_track_record user_id operation_class target
          r.verified now in
      (
        ground arith,
        record {
          files = ground arith;
          services = ground arith;
          units = ground arith;
          advanced = ground (arith, step.0, step.1);
        },
      )

  -- A run that raises records nothing.
  pub run_and_record-raised :
      (m : Action W OperationResult) (k k' : Kernel W) (e : Exn)
      → run_and_record m user_id operation_class target now k ≡ (raised e, k')
      → (m k.host ≡ (raised e, k'.host)) × (k' ≡ record k { host = k'.host })
  unfolding run_and_record
  run_and_record-raised m k k' e h = ground arith

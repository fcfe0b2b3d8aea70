-- ===== src/Operator/Tests/FileRuns.antt =====
-- Concrete runs of the reversible contract and the file gate of anima/kernel/operator.py.
use anima.Operator.Kernel.Recording.{Recorded}
use anima.Operator.FileGate.Autonomy.{operate_on_file_is_reversible}
use anima.Arch.{FileOperator, FileSnapshot}
use anima.Operator.FileGate.{
  operate_on_file, OperateOutcome, may_auto_apply, edit_on_host, applied_outcome,
}
use anima.TrackRecord.{get_operator_track_record}
use anima.Operator.Kernel.{Kernel, ManagedRow, run_and_record}
use anima.Operator.FileEdit.{
  Judged, EditDone, file_edit_operation, file_edit, file_edit_keeps_or_restores,
}
use anima.Operator.Tests.{
  Files, pure, one_file, put_file, environment, Bool, new_kernel, trusted_kernel, bad_shell, Option,
  files, run_validator, String, raise, good_shell, file_operator_refusal, Recorded,
  files-IsFileOperator,
}
use anima.Operator.Validator.{Shell, run_validator}
use anima.Operator.Contract.{
  ReversibleOperation, run_reversible_operation, OperationResult, run_contract, rolled_back,
}
use anima.Python.{ok, raised, Action, pure, raise, file_operator_refusal}
use anima.Prelude.{[], ◌∷◌, refl, true, false, none, some, ◌≡◌, Bool, Option, String, ◌≢◌}

abbrev irreversible : ReversibleOperation Files Unit
irreversible = record {
  capture = some (pure tt);
  apply = λ d. (ok tt, put_file "/etc/motd" none d);
  verify = pure true;
  restore = none;
}

abbrev motd_edit : Shell Files → ReversibleOperation Files FileSnapshot
motd_edit shell = file_edit_operation shell files "/etc/motd" (2 ∷ []) "check"

abbrev edited_files : Files
edited_files = put_file "/etc/motd" (some (2 ∷ [])) one_file

abbrev restored_files : Files
restored_files = put_file "/etc/motd" (some (1 ∷ [])) edited_files

motd_edit_restores :
    run_reversible_operation (motd_edit bad_shell) one_file ≡ (ok rolled_back, restored_files)
unfolding run_reversible_operation run_contract run_validator
motd_edit_restores = refl

-- The validator fails: the old content comes back.
file_edit_keeps_or_restores_example :
    EditDone rolled_back (2 ∷ []) (some (1 ∷ [])) (some (1 ∷ []))
    × ((q : String) → q ≢ "/etc/motd" → restored_files q ≡ one_file q)
    × Judged bad_shell (λ v. v "/etc/motd") "check" (2 ∷ []) rolled_back
file_edit_keeps_or_restores_example =
    file_edit_keeps_or_restores bad_shell files files-IsFileOperator "/etc/motd" (2 ∷ []) "check"
      (λ w q. refl) one_file restored_files rolled_back motd_edit_restores

-- The gates, at the allowlisted file and service.
abbrev edit_motd : Shell Files → Action (Kernel Files) OperateOutcome
edit_motd shell =
    operate_on_file (environment shell) "owner" "/etc/motd" (2 ∷ []) "file_edit" none none

abbrev edit_allowed : Kernel Files → Bool
edit_allowed k =
    may_auto_apply (environment bad_shell) "owner" "/etc/motd" (2 ∷ []) "file_edit" none none k

new_is_not_allowed : edit_allowed new_kernel ≡ false
unfolding get_operator_track_record
new_is_not_allowed = refl

trusted_is_allowed : edit_allowed trusted_kernel ≡ true
unfolding get_operator_track_record
trusted_is_allowed = refl

abbrev rolled_back_kernel : Kernel Files
rolled_back_kernel = (edit_motd bad_shell trusted_kernel).1

trusted_edit_runs :
    edit_motd bad_shell trusted_kernel ≡ (ok (applied_outcome rolled_back), rolled_back_kernel)
unfolding operate_on_file run_and_record edit_on_host file_edit run_reversible_operation
    run_contract run_validator get_operator_track_record
trusted_edit_runs = refl

operate_on_file_is_reversible_example :
    (r : OperationResult) × (◌≡◌ {A = Option OperationResult} (some rolled_back) (some r))
    × EditDone r (2 ∷ []) (some (1 ∷ [])) (rolled_back_kernel.host "/etc/motd")
    × ((q : String) → q ≢ "/etc/motd" → rolled_back_kernel.host q ≡ one_file q)
    × ((row : ManagedRow) × (trusted_kernel.managed_file_targets "owner" "/etc/motd" ≡ some row)
        × Judged bad_shell (λ v. v "/etc/motd") row.validator_cmd (2 ∷ []) r)
    × Recorded "owner" "file_edit" "/etc/motd" 100 trusted_kernel rolled_back_kernel r.verified
operate_on_file_is_reversible_example =
    operate_on_file_is_reversible (environment bad_shell) "owner" "/etc/motd" (2 ∷ []) "file_edit"
      none none files-IsFileOperator (λ cmd w q. refl) trusted_kernel rolled_back_kernel
      (applied_outcome rolled_back) trusted_edit_runs trusted_is_allowed

-- A file operator that refuses every write, and the kernel whose edit it refuses.
abbrev refusing : FileOperator Files
refusing = record files { write = λ path b. raise file_operator_refusal }

abbrev refused_edit : Action (Kernel Files) OperateOutcome
refused_edit =
    operate_on_file (environment good_shell) "owner" "/etc/motd" (2 ∷ []) "file_edit"
      (some refusing) none

refused_edit_runs : refused_edit trusted_kernel ≡ (raised file_operator_refusal, trusted_kernel)
unfolding operate_on_file run_and_record edit_on_host file_edit run_reversible_operation
    run_contract run_validator get_operator_track_record
refused_edit_runs = refl

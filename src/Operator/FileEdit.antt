-- ===== src/Operator/FileEdit.antt =====
-- `ReversibleFileEdit` of anima/kernel/operator.py.
use anima.Python.{
  Outcome, bind-of-ok, map-ok, ok, ◌>>=◌, ◌>>◌, Action, raise_if, pure, operator_error,
}
use anima.Prelude.{
  some, String, Option, ◌≡◌, Bool, ◌⊎◌, ◌≢◌, str_eq, inl, inr, arith, ap, ◌∙◌, true, sym,
}
use anima.Arch.{Bytes, FileSnapshot, FileOperator, IsFileOperator, snapshot_content}
use anima.Operator.Contract.{
  ReversibleOperation, OperationResult, run_reversible_operation, run_contract-Ran, Ran, kept,
  rolled_back,
}
use anima.Operator.Validator.{
  Passes, run_validator-Passes, Passes-run_validator, Shell, run_validator, run_validator-state,
}

-- What a finished edit left: the new content, verified, or the old content, restored.
abbrev pub EditDone : OperationResult → Bytes → Option Bytes → Option Bytes → Type 0
EditDone r new_content before after =
    ((r ≡ kept) × (after ≡ some new_content)) ⊎ ((r ≡ rolled_back) × (after ≡ before))

-- The verdict of a finished edit is the validator's, on a host that held the new content: the edit
-- is kept if the command exits with 0 there, and rolled back if it does not.
abbrev pub Judged :
    {W : Type 0} → Shell W → (W → Option Bytes) → String → Bytes → OperationResult → Type 0
Judged {W} shell content cmd new_content r =
    (v : W) × (content v ≡ some new_content)
    × (((r ≡ kept) × Passes shell cmd v) ⊎ ((r ≡ rolled_back) × ¬ Passes shell cmd v))

module _ {W : Type 0} (shell : Shell W) where
  abbrev verify_edit : String → Action W Bool
  verify_edit validator_cmd = do result ← run_validator shell validator_cmd; pure result.passed

  -- The object that the constructor makes, its methods by name.
  abbrev pub file_edit_operation :
      FileOperator W → String → Bytes → String → ReversibleOperation W FileSnapshot
  file_edit_operation f target_path new_content validator_cmd = record {
    capture = some (f.backup target_path);
    apply = f.write target_path new_content;
    verify = verify_edit validator_cmd;
    restore = some f.restore;
  }

  -- The constructor: without a validator the edit cannot be verified.
  unfoldable pub file_edit :
      FileOperator W → String → Bytes → String → Action W (ReversibleOperation W FileSnapshot)
  file_edit f target_path new_content validator_cmd = do
    raise_if (str_eq validator_cmd "") operator_error
    pure (file_edit_operation f target_path new_content validator_cmd)

  module _ (f : FileOperator W) (law : IsFileOperator f) (path : String) (new_content : Bytes)
      (cmd : String)
      (oracle : (w : W) (q : String) → law.content (shell cmd w).1 q ≡ law.content w q) where
    verify_edit-state : (w : W) → (verify_edit cmd w).1 ≡ (shell cmd w).1
    verify_edit-state w = ground (arith, run_validator-state shell cmd w)

    verify_edit-keeps : (w : W) (q : String) → law.content (verify_edit cmd w).1 q ≡ law.content w q
    verify_edit-keeps w q = ap (λ x. law.content x q) (verify_edit-state w) ∙ oracle w q

    module _ (w w' : W) (r : OperationResult)
        (ran : Ran
          (f.backup path)
          (f.write path new_content)
          (verify_edit cmd)
          f.restore
          w
          w'
          r) where
      abbrev captured_facts :
          (ran.captured ≡ w)
          × (ran.snapshot.path ≡ path)
          × (snapshot_content ran.snapshot ≡ law.content w path)
      captured_facts = law.backup_ok w ran.captured path ran.snapshot ran.capture_ran

      checked_content : (q : String) → law.content ran.checked q ≡ law.content ran.changed q
      checked_content q = ap (λ x. law.content x q) ran.verify_ran ∙ verify_edit-keeps ran.changed q

      written :
          (law.content ran.checked path ≡ some new_content)
          × ((q : String)
              → law.file_of q ≢ law.file_of path
              → law.content ran.checked q ≡ law.content w q)
      written =
          let wrote = law.write_ok ran.captured ran.changed path new_content ran.apply_ran in
          (
            checked_content path ∙ wrote.0,
            λ q ne. checked_content q ∙ wrote.1 q ne ∙ ap (λ x. law.content x q) captured_facts.0,
          )

      verify_edit-Passes : (v v' : W) → verify_edit cmd v ≡ (ok true, v') → Passes shell cmd v
      verify_edit-Passes v v' h =
          let (r, ran, good) = map-ok (run_validator shell cmd) (λ r. r.passed) v v' true h in
          run_validator-Passes shell cmd v v' r ran (sym good)

      Passes-verify_edit :
          (v : W) → Passes shell cmd v → verify_edit cmd v ≡ (ok true, (verify_edit cmd v).1)
      Passes-verify_edit v p =
          let done =
            bind-of-ok (run_validator shell cmd) (λ r. pure r.passed)
              (Passes-run_validator shell cmd v p) in
          ap (λ (o : Outcome Bool × W). (o.0, (verify_edit cmd v).1)) done

      judged : Judged shell (λ v. law.content v path) cmd new_content r
      judged =
          let wrote = law.write_ok ran.captured ran.changed path new_content ran.apply_ran in
          (
            ran.changed,
            wrote.0,
            elim ran.how [
              | inl (rk, passed, e) ↦ inl (rk, verify_edit-Passes ran.changed ran.checked passed)
              | inr (rr, failed, undone) ↦ inr (
                rr,
                λ p. failed (
                    Passes-verify_edit ran.changed p ∙ ap (λ w. (ok true, w)) (sym ran.verify_ran)),
              )
            ],
          )

      edit-from-Ran :
          EditDone r new_content (law.content w path) (law.content w' path)
          × ((q : String) → law.file_of q ≢ law.file_of path → law.content w' q ≡ law.content w q)
      edit-from-Ran = elim ran.how [
        | inl (rk, passed, e) ↦ (
          inl (rk, ap (λ x. law.content x path) e ∙ written.0),
          λ q ne. ap (λ x. law.content x q) e ∙ written.1 q ne,
        )
        | inr (rr, failed, undone) ↦
            let put_back = law.restore_ok ran.checked w' ran.snapshot undone in
            let at = captured_facts.1 in
            (
              inr (rr, cc (put_back.0, at, captured_facts.2)),
              λ q ne. put_back.1 q (λ e. ne (e ∙ ap law.file_of at)) ∙ written.1 q ne,
            )
      ]

    -- With a file operator that keeps its contract and a validator command that changes no file, a
    -- file edit that returns was either kept, and the file holds the new content, or rolled back,
    -- and the file holds what it held before; kept exactly if the validator command exited with 0
    -- on a host that held the new content. No other file has changed.
    pub file_edit_keeps_or_restores :
        (w w' : W) (r : OperationResult)
        → run_reversible_operation (file_edit_operation f path new_content cmd) w ≡ (ok r, w')
        → EditDone r new_content (law.content w path) (law.content w' path)
          × ((q : String) → law.file_of q ≢ law.file_of path → law.content w' q ≡ law.content w q)
          × Judged shell (λ v. law.content v path) cmd new_content r
    unfolding run_reversible_operation
    file_edit_keeps_or_restores w w' r h =
        let ran =
          run_contract-Ran (f.backup path) (f.write path new_content) (verify_edit cmd) f.restore w
            w' r h in
        let (edited, others) = edit-from-Ran w w' r ran in (edited, others, judged w w' r ran)

-- ===== src/Operator/FileGate/Autonomy.antt =====
-- When the file gate of anima/kernel/operator.py acts by itself, and what it leaves behind.
use anima.Operator.Kernel.Recording.{Recorded, run_and_record-ok, run_and_record-raised}
use anima.Operator.FileEdit.{Judged, EditDone, file_edit_keeps_or_restores}
use anima.Python.{ok, Action, ◌>>=◌, pure, raised, Exn, map-ok, map-raised}
use anima.Prelude.{
  refl, true, false, none, some, inl, inr, arith, String, Option, ℕ, Bool, ◌≡◌, Option-cases,
  Bool-cases, not, sym, or_default, ◌∙◌, ◌≢◌, ap,
}
use anima.Arch.{Bytes, FileOperator, IsFileOperator}
use anima.Operator.Kernel.{ManagedRow, Kernel, Environment}
use anima.Operator.FileGate.{
  OperateOutcome, edit_and_record, operate_on_file, may_auto_apply, applied_outcome, proposal,
  String, Option, ℕ, Action, Bool, pure, not, OperationResult, edit_on_host, or_default,
}

module _ {W : Type 0} (env : Environment W) (user_id target_path : String) (new_content : Bytes)
    (operation_class : String) (file_operator : Option (FileOperator W)) (now : Option ℕ) where
  abbrev operate : Action (Kernel W) OperateOutcome
  operate = operate_on_file env user_id target_path new_content operation_class file_operator now

  abbrev allowed : Kernel W → Bool
  allowed = may_auto_apply env user_id target_path new_content operation_class file_operator now

  -- Unless the target is allowlisted, the operator is enabled and the operation has graduated,
  -- `operate_on_file` returns a proposal of the new content and changes nothing: no file, no table
  -- and no track record.
  pub operate_on_file_proposes :
      (k : Kernel W)
      → allowed k ≡ false
      → (o : OperateOutcome) × (operate k ≡ (ok o, k))
        × (o.auto_applied ≡ false)
        × (o.proposed ≡ true)
        × (o.operation_result ≡ none)
        × (o.proposed_content ≡ some new_content)
  unfolding operate_on_file
  operate_on_file_proposes k h = elim (Option-cases (k.managed_file_targets user_id target_path)) [
    | inl e ↦ (
      proposal new_content none "target not in managed_file_targets allowlist",
      rw e,
      refl,
      refl,
      refl,
      refl,
    )
    | inr (row, e) ↦ elim (Bool-cases env.settings.operator_enabled) [
      | inl on ↦ (
        proposal new_content (some row.validator_cmd) "operation not yet graduated",
        ground arith,
        refl,
        refl,
        refl,
        refl,
      )
      | inr off ↦ (
        proposal new_content (some row.validator_cmd) "operator_enabled=False",
        ground arith,
        refl,
        refl,
        refl,
        refl,
      )
    ]
  ]

  -- With all three conditions the gate runs the edit under the validator of the allowlist.
  operate-runs :
      (k : Kernel W)
      → allowed k ≡ true
      → (row : ManagedRow) × (k.managed_file_targets user_id target_path ≡ some row)
        × (operate k
            ≡ (edit_and_record env user_id target_path new_content operation_class file_operator now
                    row.validator_cmd
                  >>= λ r. pure (applied_outcome r))
                k)
  unfolding operate_on_file
  operate-runs k h = elim (Option-cases (k.managed_file_targets user_id target_path)) [
    | inl e ↦ ground arith
    | inr (row, e) ↦ (row, e, ground arith)
  ]

  -- `operate_on_file` auto-applies exactly when the target is allowlisted, the operator is enabled
  -- and the operation has graduated; otherwise it proposes, and it never does both.
  pub operate_on_file_decides :
      (k k' : Kernel W) (o : OperateOutcome)
      → operate k ≡ (ok o, k')
      → (o.auto_applied ≡ allowed k) × (o.proposed ≡ not (allowed k))
  operate_on_file_decides k k' o h = elim (Bool-cases (allowed k)) [
    | inl e ↦
        let (row, _, runs) = operate-runs k e in
        let (r, _, done) =
          map-ok
            (edit_and_record env user_id target_path new_content operation_class file_operator now
              row.validator_cmd)
            applied_outcome k k' o (sym runs ∙ h) in
        rw e (ground (arith, done))
    | inr e ↦
        let (p, same, a, b, _, _) = operate_on_file_proposes k e in
        rw e (ground (arith, same, a, b))
  ]

  module _ (f : FileOperator W) (law : IsFileOperator f)
      (oracle : (cmd : String) (w : W) (q : String)
        → law.content (env.shell cmd w).1 q ≡ law.content w q) where
    edit_on_host-EditDone :
        (cmd : String) (w w' : W) (r : OperationResult)
        → edit_on_host env f target_path new_content cmd w ≡ (ok r, w')
        → EditDone r new_content (law.content w target_path) (law.content w' target_path)
          × ((q : String)
              → law.file_of q ≢ law.file_of target_path
              → law.content w' q ≡ law.content w q)
          × Judged env.shell (λ v. law.content v target_path) cmd new_content r
    unfolding edit_on_host
    edit_on_host-EditDone cmd w w' r h =
        file_edit_keeps_or_restores env.shell f law target_path new_content cmd (oracle cmd) w w' r
          (ground arith)

  -- An auto-applied edit, with a file operator that keeps its contract and validator commands that
  -- change no file: the file holds the new content, and the validator of the allowlist exited with 0
  -- on it, or the file holds what it held before, and the validator did not; no other file has
  -- changed; and the track record of the operation has advanced by that verdict.
  pub operate_on_file_is_reversible :
      (law : IsFileOperator (or_default file_operator env.file_operator))
      → ((cmd : String) (w : W) (q : String) → law.content (env.shell cmd w).1 q ≡ law.content w q)
      → (k k' : Kernel W) (o : OperateOutcome) → operate k ≡ (ok o, k')
      → allowed k ≡ true
      → (r : OperationResult) × (o.operation_result ≡ some r)
        × EditDone r new_content (law.content k.host target_path) (law.content k'.host target_path)
        × ((q : String)
            → law.file_of q ≢ law.file_of target_path
            → law.content k'.host q ≡ law.content k.host q)
        × ((row : ManagedRow) × (k.managed_file_targets user_id target_path ≡ some row)
            × Judged env.shell (λ v. law.content v target_path) row.validator_cmd new_content r)
        × Recorded user_id operation_class target_path (or_default now env.clock) k k' r.verified
  operate_on_file_is_reversible law oracle k k' o h e =
      let (row, listed, runs) = operate-runs k e in
      let (r, ran, done) =
        map-ok
          (edit_and_record env user_id target_path new_content operation_class file_operator now
            row.validator_cmd)
          applied_outcome k k' o (sym runs ∙ h) in
      let (on_host, recorded) =
        run_and_record-ok user_id operation_class target_path (or_default now env.clock)
          (edit_on_host env (or_default file_operator env.file_operator) target_path new_content
            row.validator_cmd)
          k k' r ran in
      let (edited, others, judged) =
        edit_on_host-EditDone (or_default file_operator env.file_operator) law oracle
          row.validator_cmd k.host k'.host r on_host in
      (
        r,
        ap (λ (x : OperateOutcome). x.operation_result) done,
        edited,
        others,
        (row, listed, judged),
        recorded,
      )

  -- An edit that raises (a refusal of a self-protected path, for instance) is not counted: the
  -- database is as before.
  pub operate_on_file_raised :
      (k k' : Kernel W) (e : Exn)
      → operate k ≡ (raised e, k')
      → (allowed k ≡ true) × (k' ≡ record k { host = k'.host })
  operate_on_file_raised k k' e h = elim (Bool-cases (allowed k)) [
    | inl yes_allowed ↦
        let (row, _, runs) = operate-runs k yes_allowed in
        let ran =
          map-raised
            (edit_and_record env user_id target_path new_content operation_class file_operator now
              row.validator_cmd)
            applied_outcome k k' e (sym runs ∙ h) in
        (
          yes_allowed,
          (run_and_record-raised user_id operation_class target_path (or_default now env.clock)
              (edit_on_host env (or_default file_operator env.file_operator) target_path new_content
                row.validator_cmd)
              k k' e ran).1,
        )
    | inr not_allowed ↦
        let (p, same, _, _, _, _) = operate_on_file_proposes k not_allowed in ground (arith, same)
  ]

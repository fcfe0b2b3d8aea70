-- ===== src/PamOperator/Install.antt =====
-- The statements of `install_pam_edit_with_deadman` of anima/kernel/pam_operator.py, in order.
use mathlib.Core.Path.{subst}
use anima.Python.{
  Action, bind-of-ok, bind-of-raised, ok, raised, os_error, Outcome, Exn, pam_refusal,
  pam_install_error, other_error, try_except, ◌>>◌, ◌>>=◌, raise_if, pure,
}
use anima.Prelude.{
  ℕ, String, Bool, List, Option, [], false, some, ◌≡◌, str_eq, is_none, or_default, ◌⊎◌, ◌≢◌, refl,
  inl, inr, arith, Bool-cases, not, ◌&&◌, ◌∙◌, true, sym, Option-cases, eq_of_str_eq,
}
use anima.PamOperator.{
  written, write_fails, write_tears, PamHost, PamRun, PamRevert, Write,
  install_pam_edit_with_deadman, is_protected, put, capture, arm, PamSnapshot, str_eq, is_none,
  or_default, os_error, not, Exn, pam_refusal, pam_install_error, other_error, try_except, raise_if,
  try_edit, abort, pure,
}
use anima.PamOperator.Writes.{put_self, former}
use anima.PamOperator.Edit.{Ignored, Undone, EditEnds, edit-EditEnds}

-- No PAM file has changed.
abbrev pub SameFiles : PamHost → PamHost → Type 0
SameFiles h h' = (q : String) → h'.files q ≡ h.files q

abbrev pub command_of : PamRun → String → PamRevert
command_of run pam_file = record { snapshot_id = run.snapshot_id; pam_file = pam_file }

module _ (target : String → String) (run : PamRun) (pam_file : String) (new_content : List ℕ)
    (h : PamHost) where
  abbrev pub file : Option (List ℕ)
  file = h.files (target pam_file)

  abbrev pub snap : PamSnapshot
  snap = record { pam_file = pam_file; was_absent = is_none file; snapshot_id = run.snapshot_id }

  abbrev pub captured : PamHost
  captured = record h { backups = put run.snapshot_id (some (or_default file [])) h.backups }

  backup-cases :
      (write : Write)
      → run.backup ≡ write
      → (not (is_none file) && run.read_raises) ≡ false
      → (capture target run pam_file h ≡ (ok snap, captured))
        ⊎ ((h' : PamHost) × (capture target run pam_file h ≡ (raised os_error, h'))
            × (h'.files ≡ h.files))
  unfolding capture
  backup-cases written e read = inl (ground (arith, e, read))
  backup-cases write_fails e read = inr (h, ground (arith, e, read), refl)
  backup-cases (write_tears part) e read = inr (
    record h { backups = put run.snapshot_id (some part) h.backups },
    ground (arith, e, read),
    refl,
  )

  capture-cases :
      (capture target run pam_file h ≡ (ok snap, captured))
      ⊎ ((h' : PamHost) × (capture target run pam_file h ≡ (raised os_error, h'))
          × (h'.files ≡ h.files))
  unfolding capture
  capture-cases = elim (Bool-cases (not (is_none file) && run.read_raises)) [
    | inl unread ↦ inr (h, ground (arith, unread), refl)
    | inr read ↦ backup-cases run.backup refl read
  ]

  former-file : former snap (or_default file []) ≡ file
  former-file = elim (Option-cases file) [
    | inl absent ↦ ground (arith, absent)
    | inr (text, present) ↦ ground (arith, present)
  ]

  -- Where it got to the edit.
  abbrev pub ready : PamHost
  ready = record captured { armed = some (command_of run pam_file) }

  pub saved : ready.backups run.snapshot_id ≡ some (or_default file [])
  saved = put_self run.snapshot_id (some (or_default file [])) h.backups

  pub Undone-SameFiles :
      (h' : PamHost)
      → Undone target snap
          (or_default file [])
          (Ignored target snap (or_default file []) run ready saved)
          ready
          h'
      → SameFiles h h'
  Undone-SameFiles h' undone q = elim (Bool-cases (str_eq q (target pam_file))) [
    | inl here ↦
        let at : q ≡ target pam_file = eq_of_str_eq here in
        subst (λ p. h'.files p ≡ h.files p) (sym at) (undone.file ∙ former-file)
    | inr other ↦ undone.elsewhere.files q other
  ]

  -- The result of an edit as one of the install.
  abbrev pub returned : Outcome Unit × PamHost → Outcome String × PamHost
  returned r = elim r.0 as (λ _. Outcome String × PamHost) [
    | ok _ ↦ (ok run.snapshot_id, r.1)
    | raised x ↦ (raised x, r.1)
  ]

  -- How an install ends: before the edit, or as the edit does.
  unfoldable pub InstallEnds : Outcome String × PamHost → Type 0
  InstallEnds result =
      ((x : Exn) × (h' : PamHost) × (result ≡ (raised x, h'))
        × (x ≢ pam_install_error)
        × (h'.files ≡ h.files))
      ⊎ ((is_protected pam_file ≡ false)
          × (r : Outcome Unit × PamHost) × EditEnds target snap (or_default file []) run ready saved
              new_content r
          × (result ≡ returned r))

  -- The statements after `capture`, and those after `sd.arm`.
  abbrev edited : Action PamHost String
  edited =
      try_except (try_edit target run pam_file new_content snap) (abort target run snap)
      >> pure run.snapshot_id

  abbrev after_capture : PamSnapshot → Action PamHost String
  after_capture s =
      arm run.arm_raises (record { snapshot_id = s.snapshot_id; pam_file = pam_file })
      >> (try_except (try_edit target run pam_file new_content s) (abort target run s)
          >> pure s.snapshot_id)

  install-allowed :
      is_protected pam_file ≡ false
      → install_pam_edit_with_deadman target run pam_file new_content h
        ≡ (capture target run pam_file >>= after_capture) h
  unfolding install_pam_edit_with_deadman
  install-allowed allowed =
      let passes : raise_if (is_protected pam_file) pam_refusal h ≡ (ok tt, h) = rw allowed refl in
      bind-of-ok (raise_if (is_protected pam_file) pam_refusal)
        (λ _. capture target run pam_file >>= after_capture) passes

  install-refused :
      is_protected pam_file ≡ true
      → install_pam_edit_with_deadman target run pam_file new_content h ≡ (raised pam_refusal, h)
  unfolding install_pam_edit_with_deadman
  install-refused protected =
      let refuses : raise_if (is_protected pam_file) pam_refusal h ≡ (raised pam_refusal, h) =
        rw protected refl in
      bind-of-raised (raise_if (is_protected pam_file) pam_refusal)
        (λ _. capture target run pam_file >>= after_capture) refuses

  install-captured :
      is_protected pam_file ≡ false
      → capture target run pam_file h ≡ (ok snap, captured)
      → install_pam_edit_with_deadman target run pam_file new_content h
        ≡ after_capture snap captured
  install-captured allowed done =
      install-allowed allowed ∙ bind-of-ok (capture target run pam_file) after_capture done

  armed-Ends :
      (fails : Bool)
      → run.arm_raises ≡ fails
      → is_protected pam_file ≡ false
      → capture target run pam_file h ≡ (ok snap, captured)
      → InstallEnds (install_pam_edit_with_deadman target run pam_file new_content h)
  unfolding InstallEnds
  armed-Ends true e allowed done =
      let raises : arm run.arm_raises (command_of run pam_file) captured
          ≡ (raised other_error, captured) =
        rw e refl in
      inl (
        other_error,
        captured,
        install-captured allowed done
            ∙ bind-of-raised (arm run.arm_raises (command_of run pam_file)) (λ _. edited) raises,
        λ c. cc,
        refl,
      )
  armed-Ends false e allowed done =
      let arms : arm run.arm_raises (command_of run pam_file) captured ≡ (ok tt, ready) =
        rw e refl in
      inr (
        allowed,
        _,
        edit-EditEnds target snap (or_default file []) run ready saved new_content,
        install-captured allowed done
            ∙ bind-of-ok (arm run.arm_raises (command_of run pam_file)) (λ _. edited) arms,
      )

  pub install-Ends : InstallEnds (install_pam_edit_with_deadman target run pam_file new_content h)
  unfolding InstallEnds
  install-Ends = elim (Bool-cases (is_protected pam_file)) [
    | inl protected ↦ inl (pam_refusal, h, install-refused protected, λ e. cc, refl)
    | inr allowed ↦ elim capture-cases [
      | inr (h', failed, same) ↦ inl (
        os_error,
        h',
        install-allowed allowed ∙ bind-of-raised (capture target run pam_file) after_capture failed,
        λ e. cc,
        same,
      )
      | inl done ↦ armed-Ends run.arm_raises refl allowed done
    ]
  ]

-- ===== src/PamOperator/Tests.antt =====
-- Concrete edits of the PAM file "vsftpd" by anima/kernel/pam_operator.py.
use anima.Systemd.{stopped, stop_ignored}
use anima.Python.{ok, raised, Outcome, pam_install_error, operator_error}
use anima.Prelude.{
  String, [], ◌∷◌, refl, true, false, none, some, concat, ◌≡◌, if◌then◌else◌, contains, ◌⊎◌, str_eq,
  ◌≢◌,
}
use anima.PamOperator.{
  PamHost, PamRun, written, exited, install_pam_edit_with_deadman, is_protected, put, capture,
  restore, execute_approved_pam_edit, contains, pam_install_error, str_eq, operator_error,
  stop_ignored,
}
use anima.PamOperator.Install.{command_of, SameFiles}
use anima.PamOperator.Safety.{
  Installed, Failed, install_pam_edit_with_deadman_is_armed, install_pam_edit_with_deadman_raised,
}

abbrev in_pam_dir : String → String
in_pam_dir name = concat "/etc/pam.d/" name

abbrev before : PamHost
before = record {
  files = λ q. if str_eq q "/etc/pam.d/vsftpd" then some (1 ∷ []) else none;
  backups = λ q. none;
  armed = none;
}

abbrev smooth : PamRun
smooth = record {
  snapshot_id = "s1";
  read_raises = false;
  backup = written;
  arm_raises = false;
  apply = written;
  ssh = exited 0;
  first_disarm = stopped;
  first_restore = written;
  second_disarm = stopped;
  second_restore = written;
}

-- The probe is rejected.
abbrev locked_out : PamRun
locked_out = record smooth { ssh = exited 255 }

abbrev edit : PamRun → Outcome String × PamHost
edit run = install_pam_edit_with_deadman in_pam_dir run "vsftpd" (2 ∷ []) before

edit_returns : edit smooth ≡ (ok "s1", (edit smooth).1)
unfolding install_pam_edit_with_deadman capture restore put is_protected contains
edit_returns = refl

edited_text : (edit smooth).1.files "/etc/pam.d/vsftpd" ≡ some (2 ∷ [])
unfolding install_pam_edit_with_deadman capture restore put is_protected contains
edited_text = refl

edit_fails : edit locked_out ≡ (raised pam_install_error, (edit locked_out).1)
unfolding install_pam_edit_with_deadman capture restore put is_protected contains
edit_fails = refl

install_pam_edit_with_deadman_is_armed_example :
    ("s1" ≡ smooth.snapshot_id)
    × Installed in_pam_dir smooth "vsftpd" (2 ∷ []) before (edit smooth).1
install_pam_edit_with_deadman_is_armed_example =
    install_pam_edit_with_deadman_is_armed in_pam_dir smooth "vsftpd" (2 ∷ []) before
      (edit smooth).1 "s1" edit_returns

install_pam_edit_with_deadman_raised_example :
    let h = (edit locked_out).1 in
    ((pam_install_error ≡ pam_install_error)
      × SameFiles before h
      × ((h.armed ≡ none)
          ⊎ ((h.armed ≡ some (command_of locked_out "vsftpd"))
              × ((locked_out.first_disarm ≡ stop_ignored)
                  ⊎ (locked_out.second_disarm ≡ stop_ignored)))))
    ⊎ ((pam_install_error ≢ pam_install_error) × Failed in_pam_dir locked_out "vsftpd" before h)
install_pam_edit_with_deadman_raised_example =
    install_pam_edit_with_deadman_raised in_pam_dir locked_out "vsftpd" (2 ∷ []) before
      (edit locked_out).1 pam_install_error edit_fails

-- The list of protected names is compared with the name as it is spelled.
other_spelling : (is_protected "sshd" ≡ true) × (is_protected "./sshd" ≡ false)
unfolding is_protected contains
other_spelling = (refl, refl)

-- Without the owner's entry nothing happens.
unmanaged :
    execute_approved_pam_edit in_pam_dir smooth (λ u p. false) "owner" "vsftpd" [] before
    ≡ (raised operator_error, before)
unfolding execute_approved_pam_edit
unmanaged = refl

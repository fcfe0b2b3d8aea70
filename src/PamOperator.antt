-- ===== src/PamOperator.antt =====
-- anima/kernel/pam_operator.py: an edit of a PAM file under a timer that restores it. What goes
-- wrong in a call is its `PamRun`; `target` is the path that a name has below the PAM directory.
pub mod Writes
pub mod Edit
pub mod Install
pub mod Safety
mod Tests
use anima.AuditChain.Check.{stop}
use anima.Systemd.{Stop, stopped, stop_ignored, stop_raises, systemctl_stop}
use anima.Python.{
  Action, ◌>>=◌, ◌>>◌, pure, raise, raise_if, modify, gets, try_except, os_error, other_error,
  pam_refusal, pam_install_error, operator_error, Exn,
}
use anima.Prelude.{
  ℕ, String, Bool, List, Option, [], ◌∷◌, true, false, none, some, if◌then◌else◌, ◌==◌, is_none,
  not, contains, str_eq, ◌&&◌, or_default,
}

-- The command of the timer, `anima-pam-restore {snapshot_id} {pam_file}`.
pub record PamRevert : Type 0 where
  pub snapshot_id : String
  pub pam_file : String

abbrev pub Files : Type 0
Files = String → Option (List ℕ)

-- The PAM files by path, the backups by snapshot, and the timer `anima-pam-revert`.
pub record PamHost : Type 0 where
  pub files : Files
  pub backups : Files
  pub armed : Option PamRevert

-- How a write of a file ends; one that fails may leave a part of the text.
pub data Write : Type 0 where
  written write_fails : Write
  write_tears : List ℕ → Write

-- The `ssh` of the probe: its exit status, that it took too long, or that it could not be run.
pub data Ssh : Type 0 where
  exited : ℕ → Ssh
  timed_out not_run : Ssh

pub record PamRun : Type 0 where
  pub snapshot_id : String
  pub read_raises : Bool
  pub backup : Write
  pub arm_raises : Bool
  pub apply : Write
  pub ssh : Ssh
  pub first_disarm : Stop
  pub first_restore : Write
  pub second_disarm : Stop
  pub second_restore : Write

pub record PamSnapshot : Type 0 where
  pub pam_file : String
  pub was_absent : Bool
  pub snapshot_id : String

abbrev pub self_protected_pam_files : List String
self_protected_pam_files =
    "sshd" ∷ "common-auth" ∷ "common-account" ∷ "common-password" ∷ "common-session"
    ∷ "common-session-noninteractive" ∷ "su" ∷ "sudo" ∷ "sudo-i" ∷ "login" ∷ "runuser" ∷ "runuser-l"
    ∷ "chfn" ∷ "chpasswd" ∷ "chsh" ∷ "passwd" ∷ "newusers" ∷ "other" ∷ "atd" ∷ "cron" ∷ "vmtoolsd"
    ∷ []

-- `pam_file in _SELF_PROTECTED_PAM_FILES`, the refusal of `PamFileEdit.__init__`
unfoldable pub is_protected : String → Bool
unfolding contains
is_protected pam_file = contains self_protected_pam_files pam_file

unfoldable pub put : String → Option (List ℕ) → Files → Files
put path text files q = if str_eq q path then text else files q

abbrev put_file : String → Option (List ℕ) → Action PamHost Unit
put_file path text = modify (λ h. record h { files = put path text h.files })

-- `path.write_bytes(…)`
abbrev pub write_bytes : Write → String → List ℕ → Action PamHost Unit
write_bytes written path text = put_file path (some text)
write_bytes write_fails path text = raise os_error
write_bytes (write_tears part) path text = do put_file path (some part); raise os_error

abbrev write_backup : Write → String → List ℕ → Action PamHost Unit
write_backup written id text = modify (λ h. record h { backups = put id (some text) h.backups })
write_backup write_fails id text = raise os_error
write_backup (write_tears part) id text = do
  modify (λ h. record h { backups = put id (some part) h.backups })
  raise os_error

-- `_run_ssh_probe`
abbrev pub run_ssh_probe : Ssh → Action PamHost Bool
run_ssh_probe (exited code) = pure (code == 0)
run_ssh_probe timed_out = pure false
run_ssh_probe not_run = raise other_error

abbrev pub arm : Bool → PamRevert → Action PamHost Unit
arm true command = raise other_error
arm false command = modify (λ h. record h { armed = some command })

abbrev pub disarm : Stop → Action PamHost Unit
disarm = systemctl_stop (modify (λ h. record h { armed = none }))

-- `path.unlink(missing_ok=True)`
abbrev pub unlink : Write → String → Action PamHost Unit
unlink written path = put_file path none
unlink _ path = raise os_error

module _ (target : String → String) where
  abbrev put_back : Write → PamSnapshot → Option (List ℕ) → Action PamHost Unit
  put_back write snap none = raise os_error
  put_back write snap (some prior) =
      if snap.was_absent
      then unlink write (target snap.pam_file)
      else write_bytes write (target snap.pam_file) prior

  -- `PamFileEdit.restore`; a backup that cannot be read counts as a write that fails.
  unfoldable pub restore : Write → PamSnapshot → Action PamHost Unit
  restore write snap = do
    backup ← gets (λ h. h.backups snap.snapshot_id)
    put_back write snap backup

  -- The lines that both failures of the edit end with.
  abbrev pub rescue : Stop → Write → PamSnapshot → Action PamHost Unit
  rescue how write snap = do disarm how; restore write snap; raise pam_install_error

module _ (target : String → String) (run : PamRun) where
  -- `PamFileEdit.capture`
  unfoldable pub capture : String → Action PamHost PamSnapshot
  capture pam_file = do
    file ← gets (λ h. h.files (target pam_file))
    raise_if (not (is_none file) && run.read_raises) os_error
    write_backup run.backup run.snapshot_id (or_default file [])
    pure (record { pam_file = pam_file; was_absent = is_none file; snapshot_id = run.snapshot_id })

  -- What follows the probe.
  abbrev pub settle : PamSnapshot → Bool → Action PamHost Unit
  settle snap true = pure tt
  settle snap false = do rescue target run.first_disarm run.first_restore snap

  abbrev pub try_edit : String → List ℕ → PamSnapshot → Action PamHost Unit
  try_edit pam_file new_content snap = do
    write_bytes run.apply (target pam_file) new_content
    passed ← run_ssh_probe run.ssh
    settle snap passed

  -- The `except` clauses.
  abbrev pub abort : PamSnapshot → Exn → Action PamHost Unit
  abort snap pam_install_error = raise pam_install_error
  abort snap e = rescue target run.second_disarm run.second_restore snap

  unfoldable pub install_pam_edit_with_deadman : String → List ℕ → Action PamHost String
  unfolding capture restore
  install_pam_edit_with_deadman pam_file new_content = do
    raise_if (is_protected pam_file) pam_refusal
    snap ← capture pam_file
    arm run.arm_raises (record { snapshot_id = snap.snapshot_id; pam_file = pam_file })
    try_except (try_edit pam_file new_content snap) (abort snap)
    pure snap.snapshot_id

  -- `managed` is the allowlist of the owner, `db.get_managed_pam_target`.
  unfoldable pub execute_approved_pam_edit :
      (String → String → Bool) → String → String → List ℕ → Action PamHost String
  unfolding install_pam_edit_with_deadman
  execute_approved_pam_edit managed user_id pam_file new_content = do
    raise_if (not (managed user_id pam_file)) operator_error
    install_pam_edit_with_deadman pam_file new_content

abbrev pub commit_pam_edit : Stop → Action PamHost Unit
commit_pam_edit how = disarm how

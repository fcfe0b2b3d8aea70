-- ===== src/Operator/Tests.antt =====
-- A host whose services and units are files, to run the gates of anima/kernel/operator.py on.
mod FileRuns
mod ServiceRuns
mod UnitRuns
use anima.Operator.ServiceGate.Autonomy.{
  operate_on_service_proposes, operate_on_service_records, protected_service_untouched,
}
use anima.Operator.Kernel.Recording.{Recorded}
use anima.Operator.ServiceAction.{
  is_protected_service, ServiceSnapshot, service_operation, service_action,
}
use anima.Operator.ServiceGate.{
  ServiceOperateOutcome, operate_on_service, service_may_auto_apply,
  execute_approved_service_action, act_on_host, applied_service_outcome,
}
use anima.Operator.ServiceAction.RunState.{IsServiceManager, service_action_keeps_or_restores}
use anima.Operator.FileGate.Autonomy.{
  operate_on_file_decides, operate_on_file_proposes, operate_on_file_raised,
  operate_on_file_is_reversible,
}
use anima.Operator.FileGate.{
  operate_on_file, OperateOutcome, may_auto_apply, applied_outcome, edit_on_host,
}
use anima.Operator.FileEdit.{EditDone, file_edit_operation, file_edit_keeps_or_restores, file_edit}
use anima.Operator.Contract.{
  ReversibleOperation, run_reversible_operation, OperationResult, rolled_back, run_contract, kept,
  irreversible_floor,
}
use anima.TrackRecord.{OperatorRow, get_operator_track_record}
use anima.Operator.Kernel.{Settings, Environment, ManagedRow, Kernel, run_and_record}
use anima.Python.{
  ok, raised, Action, raise, pure, operator_error, file_operator_refusal, other_error,
}
use anima.Prelude.{
  [], true, false, none, some, arith, String, not, ap, Option, is_none, ◌≡◌, if◌then◌else◌, ◌≢◌,
  str_eq, eq_refl, eq_iff, ◌∷◌, refl, Bool, ◌⊎◌,
}
use anima.Arch.{
  Bytes, FileSnapshot, FileOperator, ServiceManager, IsFileOperator, snapshot_content,
  UnitTopologyManager,
}
use anima.Operator.Validator.{Shell, finished, run_validator}

-- The host: what each path holds.
abbrev pub Files : Type 0
Files = String → Option Bytes

abbrev pub put_file : String → Option Bytes → Files → Files
put_file path b d p = if str_eq p path then b else d p

abbrev pub file_snapshot : String → Option Bytes → FileSnapshot
file_snapshot path none = record { path = path; existed = false; content = none }
file_snapshot path (some b) = record { path = path; existed = true; content = some b }

abbrev pub files : FileOperator Files
files = record {
  read = λ path d. (ok (d path), d);
  write = λ path b d. (ok tt, put_file path (some b) d);
  exists = λ path d. (ok (not (is_none (d path))), d);
  backup = λ path d. (ok (file_snapshot path (d path)), d);
  restore = λ s d. (ok tt, put_file s.path (snapshot_content s) d);
}

pub files-backup :
    (w w' : Files) (p : String) (s : FileSnapshot)
    → files.backup p w ≡ (ok s, w')
    → (w' ≡ w) × (s.path ≡ p) × (snapshot_content s ≡ w p)
files-backup w w' p s h = ground arith

pub put_file-Wrote :
    (w w' : Files) (p : String) (b : Option Bytes)
    → put_file p b w ≡ w'
    → (w' p ≡ b) × ((q : String) → q ≢ p → w' q ≡ w q)
put_file-Wrote w w' p b h = (ground (arith, eq_refl p), λ q ne. ground (arith, ne, eq_iff q p))

abbrev pub files-IsFileOperator : IsFileOperator files
files-IsFileOperator = record {
  content = λ w p. w p;
  file_of = λ p. p;
  content_of_file = λ w p q e. ap w e;
  backup_ok = files-backup;
  write_ok = λ w w' p b h. put_file-Wrote w w' p (some b) (ap (λ x. x.1) h);
  restore_ok = λ w w' s h. put_file-Wrote w w' s.path (snapshot_content s) (ap (λ x. x.1) h);
}

abbrev pub services : ServiceManager Files
services = record {
  is_active = λ n d. (ok (not (is_none (d n))), d);
  restart = λ n d. (ok true, put_file n (some []) d);
  start = λ n d. (ok true, put_file n (some []) d);
  stop = λ n d. (ok true, put_file n none d);
}

-- A unit is enabled if it runs, and the default target is fixed.
abbrev pub units : UnitTopologyManager Files
units = record {
  author_unit = λ u c d. (ok tt, put_file u (some []) d);
  delete_unit = λ u d. (ok tt, put_file u none d);
  read_unit = λ u d. (ok (if is_none (d u) then none else some "[Unit]"), d);
  enable = λ u d. (ok tt, put_file u (some []) d);
  disable = λ u d. (ok tt, put_file u none d);
  is_enabled = λ u d. (ok (not (is_none (d u))), d);
  set_default = λ t d. (raised other_error, d);
  get_default = λ d. (ok "graphical.target", d);
  daemon_reload = λ d. (ok tt, d);
  analyze_verify = λ d. (ok (true, ""), d);
}

abbrev pub good_shell : Shell Files
good_shell cmd d = (ok (finished 0 "" ""), d)

abbrev pub bad_shell : Shell Files
bad_shell cmd d = (ok (finished 1 "" "no"), d)

abbrev pub all_enabled : Settings
all_enabled = record {
  operator_enabled = true;
  operator_service_enabled = true;
  operator_unit_topology_enabled = true;
}

abbrev pub environment : Shell Files → Environment Files
environment shell = record {
  settings = all_enabled;
  clock = 100;
  shell = shell;
  file_operator = files;
  service_manager = services;
  unit_topology_manager = units;
}

abbrev pub one_target : {V : Type 0} → String → V → String → String → Option V
one_target path v user_id target = if str_eq target path then some v else none

abbrev pub managed : ManagedRow
managed = record { validator_cmd = "check"; created_at = 1 }

abbrev pub trusted : OperatorRow
trusted = record {
  verified_successes = 3;
  graduated = 1;
  last_outcome = some "merged_resolved";
  last_target_sha = none;
  pending_since = none;
  updated_at = 9;
}

abbrev pub one_file : Files
one_file p = if str_eq p "/etc/motd" then some (1 ∷ []) else none

-- Everything is allowlisted; every operation has graduated, or none has.
abbrev pub kernel_with : Option OperatorRow → Kernel Files
kernel_with row = record {
  managed_file_targets = one_target "/etc/motd" managed;
  managed_service_targets = one_target "nginx" managed;
  managed_unit_targets = one_target "kiosk.service" 1;
  operator_track_record = λ u c t. row;
  host = one_file;
}

abbrev pub trusted_kernel : Kernel Files
trusted_kernel = kernel_with (some trusted)

abbrev pub new_kernel : Kernel Files
new_kernel = kernel_with none

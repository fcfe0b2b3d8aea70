-- ===== src/Operator/Tests/ServiceRuns.antt =====
-- Concrete runs of the service gate of anima/kernel/operator.py.
use anima.Operator.ServiceGate.Autonomy.{protected_service_untouched}
use anima.Operator.Validator.{run_validator}
use anima.Operator.ServiceAction.{
  is_protected_service, ServiceSnapshot, service_operation, service_action,
}
use anima.Operator.Kernel.{Kernel, run_and_record}
use anima.Operator.ServiceGate.{
  ServiceOperateOutcome, operate_on_service, service_may_auto_apply, act_on_host,
  execute_approved_service_action, applied_service_outcome,
}
use anima.TrackRecord.{get_operator_track_record}
use anima.Operator.Contract.{
  ReversibleOperation, run_reversible_operation, rolled_back, run_contract, kept, OperationResult,
}
use anima.Operator.ServiceAction.RunState.{IsServiceManager, service_action_keeps_or_restores}
use anima.Operator.Tests.{
  Files, String, services, put_file, environment, new_kernel, trusted_kernel, Bool, not, one_file,
  run_validator, good_shell, is_none, bad_shell, eq_refl,
}
use anima.Python.{ok, Action}
use anima.Prelude.{
  [], refl, true, false, none, some, arith, ◌≡◌, String, Bool, not, ◌⊎◌, is_none, eq_refl, ◌≢◌,
}

start_lem :
    (w w' : Files) (n : String) → services.start n w ≡ (ok true, w') → not (is_none (w' n)) ≡ true
start_lem w w' n h = ground (arith, eq_refl n)

stop_lem :
    (w w' : Files) (n : String) → services.stop n w ≡ (ok true, w') → not (is_none (w' n)) ≡ false
stop_lem w w' n h = ground (arith, eq_refl n)

abbrev services-IsServiceManager : IsServiceManager services
services-IsServiceManager = record {
  active = λ w n. not (is_none (w n));
  is_active_ok = λ w n. refl;
  start_ok = start_lem;
  stop_ok = stop_lem;
}

abbrev restart_nginx : ReversibleOperation Files ServiceSnapshot
restart_nginx = service_operation bad_shell services "nginx" "restart" "check"

-- nginx did not run, and does not run after the failed restart.
abbrev stopped_again : Files
stopped_again = put_file "nginx" none (put_file "nginx" (some []) one_file)

restart_nginx_restores :
    run_reversible_operation restart_nginx one_file ≡ (ok rolled_back, stopped_again)
unfolding run_reversible_operation run_contract run_validator
restart_nginx_restores = refl

service_action_keeps_or_restores_example :
    ((rolled_back ≡ kept) × (◌≡◌ {A = Bool} false true))
    ⊎ ((rolled_back ≡ rolled_back) × (◌≡◌ {A = Bool} false false))
service_action_keeps_or_restores_example =
    service_action_keeps_or_restores bad_shell services services-IsServiceManager "nginx" "restart"
      "check" (λ w n. refl) (λ w. (put_file "nginx" (some []) w, refl))
      (λ w. (put_file "nginx" none w, refl)) one_file stopped_again rolled_back
      restart_nginx_restores

abbrev restart_gate : Action (Kernel Files) ServiceOperateOutcome
restart_gate = operate_on_service (environment good_shell) "owner" "nginx" "restart" none none

new_restart_not_allowed :
    service_may_auto_apply (environment good_shell) "owner" "nginx" "restart" none none new_kernel
    ≡ false
unfolding get_operator_track_record
new_restart_not_allowed = refl

trusted_restart_allowed :
    service_may_auto_apply
      (environment good_shell)
      "owner"
      "nginx"
      "restart"
      none
      none
      trusted_kernel
    ≡ true
unfolding get_operator_track_record
trusted_restart_allowed = refl

abbrev restarted_kernel : Kernel Files
restarted_kernel = (restart_gate trusted_kernel).1

restart_gate_runs :
    restart_gate trusted_kernel ≡ (ok (applied_service_outcome kept), restarted_kernel)
unfolding operate_on_service run_and_record act_on_host service_action run_reversible_operation
    run_contract run_validator get_operator_track_record is_protected_service
restart_gate_runs = refl

ssh_is_protected : is_protected_service " SSHD.service " ≡ true
unfolding is_protected_service
ssh_is_protected = refl

protected_service_untouched_example :
    let gate =
      operate_on_service (environment good_shell) "owner" " SSHD.service " "stop" none none in
    let path =
      execute_approved_service_action
        (environment good_shell)
        "owner"
        " SSHD.service "
        "stop"
        none
        none in
    ((gate trusted_kernel).1 ≡ trusted_kernel)
    × ((path trusted_kernel).1 ≡ trusted_kernel)
    × ((o : ServiceOperateOutcome) → (gate trusted_kernel).0 ≡ ok o → o.auto_applied ≡ false)
    × ((r : OperationResult) → (path trusted_kernel).0 ≢ ok r)
protected_service_untouched_example =
    protected_service_untouched (environment good_shell) "owner" " SSHD.service " "stop" none none
      trusted_kernel ssh_is_protected

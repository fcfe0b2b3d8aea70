-- ===== src/Operator/ServiceGate/Autonomy.antt =====
-- When the service gate of anima/kernel/operator.py acts by itself, and its lockout floor.
use anima.Operator.Kernel.Recording.{Recorded, run_and_record-ok}
use anima.Operator.ServiceAction.{is_protected_service}
use anima.Operator.Contract.{OperationResult}
use anima.Operator.ServiceGate.{
  operate_on_service, act_on_host, execute_approved_service_action, ServiceOperateOutcome,
  OperationResult, Bool, service_may_auto_apply, act_and_record, service_proposal, service_class,
  pure, or_default, applied_service_outcome, operator_error,
}
use anima.Arch.{ServiceManager}
use anima.Operator.Kernel.{Environment, Kernel, run_and_record, ManagedRow}
use anima.Python.{ok, raised, Action, service_operator_refusal, ◌>>=◌, pure, map-ok, operator_error}
use anima.Prelude.{
  refl, true, false, none, some, inl, inr, arith, String, Option, ℕ, ◌≡◌, Bool, Option-cases, ◌≢◌,
  Bool-cases, or_default, sym, ◌∙◌, ◌⊎◌, ap,
}

module _ {W : Type 0} (env : Environment W) (user_id service_name action : String)
    (service_manager : Option (ServiceManager W)) (now : Option ℕ) where
  abbrev operate : Action (Kernel W) ServiceOperateOutcome
  operate = operate_on_service env user_id service_name action service_manager now

  abbrev execute : Action (Kernel W) OperationResult
  execute = execute_approved_service_action env user_id service_name action service_manager now

  abbrev allowed : Kernel W → Bool
  allowed = service_may_auto_apply env user_id service_name action service_manager now

  -- Unless the service is allowlisted, the service operator is enabled and the operation has
  -- graduated, `operate_on_service` returns a proposal of the action and changes nothing.
  pub operate_on_service_proposes :
      (k : Kernel W)
      → allowed k ≡ false
      → (o : ServiceOperateOutcome) × (operate k ≡ (ok o, k))
        × (o.auto_applied ≡ false)
        × (o.proposed ≡ true)
        × (o.proposed_action ≡ some action)
  unfolding operate_on_service
  operate_on_service_proposes k h =
      elim (Option-cases (k.managed_service_targets user_id service_name)) [
        | inl e ↦ (
          service_proposal action none "target not in managed_service_targets allowlist",
          rw e,
          refl,
          refl,
          refl,
        )
        | inr (row, e) ↦ elim (Bool-cases env.settings.operator_service_enabled) [
          | inl on ↦ (
            service_proposal action (some row.validator_cmd) "operation not yet graduated",
            ground arith,
            refl,
            refl,
            refl,
          )
          | inr off ↦ (
            service_proposal action (some row.validator_cmd) "operator_service_enabled=False",
            ground arith,
            refl,
            refl,
            refl,
          )
        ]
      ]

  service_runs :
      (k : Kernel W)
      → allowed k ≡ true
      → (row : ManagedRow) × (k.managed_service_targets user_id service_name ≡ some row)
        × (operate k
            ≡ (act_and_record env user_id service_name action service_manager now row.validator_cmd
                  >>= λ r. pure (applied_service_outcome r))
                k)
  unfolding operate_on_service
  service_runs k h = elim (Option-cases (k.managed_service_targets user_id service_name)) [
    | inl e ↦ ground arith
    | inr (row, e) ↦ (row, e, ground arith)
  ]

  -- With all three conditions, a call of `operate_on_service` that returns has applied the action,
  -- reports its result, and has advanced the track record of the operation by it.
  pub operate_on_service_records :
      (k k' : Kernel W) (o : ServiceOperateOutcome)
      → operate k ≡ (ok o, k')
      → allowed k ≡ true
      → (o.auto_applied ≡ true)
        × (o.proposed ≡ false)
        × (r : OperationResult) × (o.operation_result ≡ some r)
        × Recorded user_id
            (service_class action)
            service_name
            (or_default now env.clock)
            k
            k'
            r.verified
  operate_on_service_records k k' o h e =
      let (row, _, runs) = service_runs k e in
      let (r, ran, done) =
        map-ok
          (act_and_record env user_id service_name action service_manager now row.validator_cmd)
          applied_service_outcome k k' o (sym runs ∙ h) in
      (
        ap (λ (x : ServiceOperateOutcome). x.auto_applied) done,
        ap (λ (x : ServiceOperateOutcome). x.proposed) done,
        r,
        ap (λ (x : ServiceOperateOutcome). x.operation_result) done,
        (run_and_record-ok user_id (service_class action) service_name (or_default now env.clock)
            (act_on_host env (or_default service_manager env.service_manager) service_name action
              row.validator_cmd)
            k k' r ran).1,
      )

  act_and_record-refused :
      (cmd : String) (k : Kernel W)
      → is_protected_service service_name ≡ true
      → act_and_record env user_id service_name action service_manager now cmd k
        ≡ (raised service_operator_refusal, k)
  unfolding act_on_host run_and_record
  act_and_record-refused cmd k h = ground (arith, h)

  execute-refused :
      (k : Kernel W)
      → is_protected_service service_name ≡ true
      → (execute k ≡ (raised operator_error, k))
        ⊎ (execute k ≡ (raised service_operator_refusal, k))
  unfolding execute_approved_service_action
  execute-refused k h = elim (Option-cases (k.managed_service_targets user_id service_name)) [
    | inl e ↦ inl (rw e)
    | inr (row, e) ↦ inr (rw e (act_and_record-refused row.validator_cmd k h))
  ]

  operate-refused :
      (k : Kernel W)
      → is_protected_service service_name ≡ true
      → ((o : ServiceOperateOutcome) × (operate k ≡ (ok o, k)) × (o.auto_applied ≡ false))
        ⊎ (operate k ≡ (raised service_operator_refusal, k))
  operate-refused k h = elim (Bool-cases (allowed k)) [
    | inl e ↦
        let (row, _, runs) = service_runs k e in
        let refused = act_and_record-refused row.validator_cmd k h in
        inr (runs ∙ ground (arith, refused))
    | inr e ↦ let (o, same, a, _, _) = operate_on_service_proposes k e in inl (o, same, a)
  ]

  -- A self-protected service (in any case, with any surrounding whitespace) is never touched: the
  -- autonomous gate and the owner-approved path leave the host and the database as they were,
  -- whatever is allowlisted, enabled and graduated, and neither returns a result of an action.
  pub protected_service_untouched :
      (k : Kernel W)
      → is_protected_service service_name ≡ true
      → ((operate k).1 ≡ k)
        × ((execute k).1 ≡ k)
        × ((o : ServiceOperateOutcome) → (operate k).0 ≡ ok o → o.auto_applied ≡ false)
        × ((r : OperationResult) → (execute k).0 ≢ ok r)
  protected_service_untouched k h =
      let x = execute-refused k h in
      let y = operate-refused k h in
      (
        ground (arith, y),
        ground (arith, x),
        λ o e. ground (arith, y, e),
        λ r e. ground (arith, x, e),
      )

-- ===== src/Operator/ServiceAction/RunState.antt =====
-- What a service action of anima/kernel/operator.py does to the run-state of its service.
use anima.Operator.Contract.{
  run_reversible_operation, OperationResult, kept, rolled_back, run_contract-Ran,
}
use anima.Operator.ServiceAction.{
  ServiceSnapshot, put_back, restore_service, capture_service, verify_service, not, str_eq,
  service_operation, apply_service,
}
use anima.Operator.Validator.{Shell, run_validator-state}
use anima.Arch.{ServiceManager}
use anima.Python.{ok, bind-ok}
use anima.Prelude.{
  true, false, arith, String, Bool, ◌≡◌, not, str_eq, inl, inr, Bool-cases, ◌⊎◌, ap, ◌∙◌,
}

-- The contract of `ServiceManager`, as its docstrings state it: `active` is whether a unit runs,
-- and a call that reports success has the effect that it is named for.
pub record IsServiceManager {W : Type 0} (m : ServiceManager W) : Type 0 where
  pub active : W → String → Bool
  pub is_active_ok : (w : W) (n : String) → m.is_active n w ≡ (ok (active w n), w)
  pub start_ok : (w w' : W) (n : String) → m.start n w ≡ (ok true, w') → active w' n ≡ true
  pub stop_ok : (w w' : W) (n : String) → m.stop n w ≡ (ok true, w') → active w' n ≡ false

module _ {W : Type 0} (shell : Shell W) (m : ServiceManager W) (law : IsServiceManager m) where
  module _ (name : String) (starts : (w : W) → (w' : W) × (m.start name w ≡ (ok true, w')))
      (stops : (w : W) → (w' : W) × (m.stop name w ≡ (ok true, w'))) where
    put_back-active :
        (was now : Bool) (w w' : W)
        → law.active w name ≡ now
        → put_back shell m name was now w ≡ (ok tt, w')
        → law.active w' name ≡ was
    put_back-active true true w w' e h = ground (arith, e, h)
    put_back-active false false w w' e h = ground (arith, e, h)
    put_back-active true false w w' e h =
        let (u, s) = starts w in law.start_ok w w' name (ground (arith, s, h))
    put_back-active false true w w' e h =
        let (u, s) = stops w in law.stop_ok w w' name (ground (arith, s, h))

    restore-active :
        (s : ServiceSnapshot) (w w' : W)
        → restore_service shell m name s w ≡ (ok tt, w')
        → law.active w' name ≡ s.was_active
    restore-active s w w' h =
        let (now, t, asked, rest) =
          bind-ok (m.is_active name) (put_back shell m name s.was_active) w h in
        put_back-active s.was_active now t w' (ground (arith, asked, law.is_active_ok w name)) rest

  capture-active :
      (name : String) (s : ServiceSnapshot) (w w' : W)
      → capture_service shell m name w ≡ (ok s, w')
      → s.was_active ≡ law.active w name
  capture-active name s w w' h = ground (arith, law.is_active_ok w name)

  module _ (name action cmd : String)
      (oracle : (w : W) (n : String) → law.active (shell cmd w).1 n ≡ law.active w n) where
    verify-active :
        (w w' : W)
        → verify_service shell m name action cmd w ≡ (ok true, w')
        → law.active w' name ≡ not (str_eq action "stop")
    verify-active w w' h = elim (Bool-cases (str_eq action "stop")) [
      | inl e ↦ ground (arith, e, h, law.is_active_ok w name)
      | inr e ↦
          ground
            (arith, e, h, law.is_active_ok w name, run_validator-state shell cmd w, oracle w name)
    ]

    -- With a service manager that keeps its contract, `start` and `stop` calls that succeed and a
    -- validator command that changes no run-state, a service action that returns was either
    -- verified, and the service runs (it does not, for "stop"), or rolled back, and the service
    -- runs exactly if it ran before.
    pub service_action_keeps_or_restores :
        (starts : (w : W) → (w' : W) × (m.start name w ≡ (ok true, w')))
        (stops : (w : W) → (w' : W) × (m.stop name w ≡ (ok true, w'))) (w w' : W)
        (r : OperationResult)
        → run_reversible_operation (service_operation shell m name action cmd) w ≡ (ok r, w')
        → ((r ≡ kept) × (law.active w' name ≡ not (str_eq action "stop")))
          ⊎ ((r ≡ rolled_back) × (law.active w' name ≡ law.active w name))
    unfolding run_reversible_operation
    service_action_keeps_or_restores starts stops w w' r h =
        let ran =
          run_contract-Ran (capture_service shell m name) (apply_service shell m name action)
            (verify_service shell m name action cmd) (restore_service shell m name) w w' r h in
        elim ran.how [
          | inl (rk, good, e) ↦
              inl (rk, ap (λ x. law.active x name) e ∙ verify-active ran.changed ran.checked good)
          | inr (rr, bad, undone) ↦ inr (
            rr,
            restore-active name starts stops ran.snapshot ran.checked w' undone
                ∙ capture-active name ran.snapshot w ran.captured ran.capture_ran,
          )
        ]

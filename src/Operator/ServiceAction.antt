-- ===== src/Operator/ServiceAction.antt =====
-- `ReversibleServiceAction` of anima/kernel/operator.py.
pub mod RunState
use anima.Python.{◌>>=◌, ◌>>◌, Action, pure, raise_if, service_operator_refusal, operator_error}
use anima.Prelude.{
  [], ◌∷◌, true, false, some, List, String, strip, Bool, contains, lower, contains_codes,
  if◌then◌else◌, str_eq, not, codes,
}
use anima.Arch.{ServiceManager}
use anima.Operator.Contract.{ReversibleOperation, OperationResult}
use anima.Operator.Validator.{Shell, run_validator}

abbrev self_protected_services : List String
self_protected_services =
    "anima.service" ∷ "anima" ∷ "ssh.service" ∷ "ssh" ∷ "sshd.service" ∷ "sshd" ∷ []

pub record ServiceSnapshot : Type 0 where
  pub service_name : String
  pub was_active : Bool

abbrev service_actions : List String
service_actions = "restart" ∷ "start" ∷ "stop" ∷ []

-- `service_name.strip().lower() in _SELF_PROTECTED_SERVICES`
unfoldable pub is_protected_service : String → Bool
unfolding strip lower contains_codes
is_protected_service name = contains_codes self_protected_services (lower (strip (codes name)))

module _ {W : Type 0} (shell : Shell W) (m : ServiceManager W) where
  abbrev pub capture_service : String → Action W ServiceSnapshot
  capture_service name = do
    active ← m.is_active name
    pure (record { service_name = name; was_active = active })

  abbrev pub apply_service : String → String → Action W Unit
  apply_service name action =
      if str_eq action "restart"
      then (do m.restart name; pure tt)
      else if str_eq action "start"
      then (do m.start name; pure tt)
      else (do m.stop name; pure tt)

  -- `and` runs the validator only if the service is active.
  abbrev pub check_active : Bool → String → Action W Bool
  check_active false cmd = pure false
  check_active true cmd = do result ← run_validator shell cmd; pure result.passed

  abbrev pub verify_service : String → String → String → Action W Bool
  verify_service name action cmd =
      if str_eq action "stop"
      then (do active ← m.is_active name; pure (not active))
      else (do active ← m.is_active name; check_active active cmd)

  abbrev pub put_back : String → Bool → Bool → Action W Unit
  put_back name true false = do m.start name; pure tt
  put_back name false true = do m.stop name; pure tt
  put_back name true true = pure tt
  put_back name false false = pure tt

  abbrev pub restore_service : String → ServiceSnapshot → Action W Unit
  restore_service name snapshot = do
    active_now ← m.is_active name
    put_back name snapshot.was_active active_now

  abbrev pub service_operation : String → String → String → ReversibleOperation W ServiceSnapshot
  service_operation name action validator_cmd = record {
    capture = some (capture_service name);
    apply = apply_service name action;
    verify = verify_service name action validator_cmd;
    restore = some (restore_service name);
  }

  -- The constructor: three refusals, in this order.
  unfoldable pub service_action :
      String → String → String → Action W (ReversibleOperation W ServiceSnapshot)
  unfolding is_protected_service contains
  service_action name action validator_cmd = do
    raise_if (is_protected_service name) service_operator_refusal
    raise_if (not (contains service_actions action)) operator_error
    raise_if (str_eq validator_cmd "") operator_error
    pure (service_operation name action validator_cmd)

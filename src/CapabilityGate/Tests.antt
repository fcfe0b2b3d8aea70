-- ===== src/CapabilityGate/Tests.antt =====
-- Concrete tool calls through the gate of anima/kernel/capability_gate.py.
use anima.AuditChain.Log.{chain_written}
use anima.Python.{Outcome}
use anima.Prelude.{[], ◌∷◌, refl, true, none, some, String, ℕ, Bool, contains, ◌≡◌}
use anima.AuditChain.Crypto.{Crypto}
use anima.CapabilityGate.{
  GateState, GateResult, Params, ParamValue, container, classify_tier, pre_execute_gate, String, ℕ,
  Bool, Outcome, contains,
}

abbrev plain : Crypto
plain = record {
  Json = String;
  text = λ s. s;
  canonical = λ seq ts prev payload. prev;
  hash_bytes = λ s. s;
  sign_hex = λ s. s;
  fromhex = λ s. some [];
  verify_sig = λ s b. true;
}

abbrev as_number : ℕ → String
as_number n = "number"

abbrev as_flag : Bool → String
as_flag b = "flag"

abbrev quiet : GateState plain
quiet = record {
  warnings = [];
  chain = record { file = none; last_hash = ""; seq = 0; last_ts_ms = 0 };
}

abbrev no_params : Params
no_params = record { action = none; svc_action = none; operation = none }

abbrev hidden_restart : Params
hidden_restart = record {
  action = some (ParamValue.text "action");
  svc_action = some (container true);
  operation = none;
}

abbrev gate_pam : Outcome GateResult × GateState plain
gate_pam =
    pre_execute_gate plain as_number as_flag "manage_pam" no_params "/srv" "owner" 5 chain_written
      quiet

pam_warns : gate_pam.1.warnings ≡ ("manage_pam", "owner", "/srv") ∷ []
unfolding pre_execute_gate classify_tier contains
pam_warns = refl

-- ===== src/CapabilityGate.antt =====
-- anima/kernel/capability_gate.py: the tier of a tool call and the gate that audits it, over the
-- audit chain.
mod Tests
use anima.AuditChain.Log.{ChainWrite, chain_written, chain_untouched, chain_whole, chain_cut}
use anima.Python.{ok, raised, Outcome, Action, type_error}
use anima.Prelude.{
  [], ◌∷◌, true, false, none, some, ℕ, String, Option, List, Bool, if◌then◌else◌, contains, ◌++◌,
  str_eq, ◌≡◌, or_default, refl, arith, ◌+◌, length, Bool-cases, length-append,
}
use anima.AuditChain.Crypto.{Crypto, Payload}
use anima.AuditChain.Log.{AuditChain, append, append_locked, lines_of}

pub data CapabilityTier : Type 0 where
  tier0 tier1 tier2 tier3 : CapabilityTier

abbrev pub tier_value : CapabilityTier → ℕ
tier_value tier0 = 0
tier_value tier1 = 1
tier_value tier2 = 2
tier_value tier3 = 3

-- A value of a JSON object: a text, a list or object (which is not hashable) and whether it is
-- nonempty, or another value and whether it is true.
pub data ParamValue : Type 0 where
  text : String → ParamValue
  container : (nonempty : Bool) → ParamValue
  scalar : (truth : Bool) → ParamValue

-- The keys that the classification reads.
pub record Params : Type 0 where
  pub action : Option ParamValue
  pub svc_action : Option ParamValue
  pub operation : Option ParamValue

abbrev always_tier3 : List String
always_tier3 = "manage_pam" ∷ []

abbrev tier3_svc_actions : List String
tier3_svc_actions = "restart" ∷ "stop" ∷ "start" ∷ []

abbrev tier2_tools : List String
tier2_tools = "manage_file" ∷ "manage_owned_resource" ∷ "manage_venv" ∷ "git_commit" ∷ []

abbrev tier1_tools : List String
tier1_tools = "bash" ∷ "write_file" ∷ "git_branch" ∷ []

-- `value or default`
abbrev or_value : Option ParamValue → ParamValue → ParamValue
or_value none d = d
or_value (some (text s)) d = if str_eq s "" then d else text s
or_value (some (container true)) d = container true
or_value (some (container false)) d = d
or_value (some (scalar true)) d = scalar true
or_value (some (scalar false)) d = d

-- Membership in a tuple compares; membership in a `frozenset` hashes.
abbrev in_tuple : List String → ParamValue → Bool
in_tuple xs (text s) = contains xs s
in_tuple xs (container b) = false
in_tuple xs (scalar b) = false

abbrev in_set : List String → ParamValue → Outcome Bool
in_set xs (text s) = ok (contains xs s)
in_set xs (container b) = raised type_error
in_set xs (scalar b) = ok false

abbrev service_tier : Outcome Bool → Outcome CapabilityTier
service_tier (ok true) = ok tier3
service_tier (ok false) = ok tier2
service_tier (raised e) = raised e

unfoldable pub classify_tier : String → Params → Outcome CapabilityTier
classify_tier tool_name params =
    if contains always_tier3 tool_name
    then ok tier3
    else if str_eq tool_name "manage_service"
    then (if in_tuple ("action" ∷ "approved_apply" ∷ []) (or_default params.action (text ""))
        then service_tier (
            in_set tier3_svc_actions
              (or_value params.svc_action (or_default params.operation (text ""))))
        else ok tier2)
    else if contains tier2_tools tool_name
    then ok tier2
    else if contains tier1_tools tool_name
    then ok tier1
    else ok tier0

pub record GateResult : Type 0 where
  pub allowed : Bool
  pub tier : CapabilityTier
  pub reason : String
  pub tool_name : String
  pub user_id : String

-- The warnings written, as tool, user and directory, and the audit chain.
pub record GateState (k : Crypto) : Type 0 where
  pub warnings : List (String × String × String)
  pub chain : AuditChain k

abbrev pub tier_or_zero : Outcome CapabilityTier → CapabilityTier
tier_or_zero (ok tier) = tier
tier_or_zero (raised e) = tier0

abbrev pub is_tier3 : CapabilityTier → Bool
is_tier3 tier3 = true
is_tier3 tier2 = false
is_tier3 tier1 = false
is_tier3 tier0 = false

-- How numbers and truth values are JSON values.
module _ (k : Crypto) (number : ℕ → k.Json) (flag : Bool → k.Json) where
  -- The payload of `_audit_action`
  abbrev pub audit_payload : GateResult → String → Payload k.Json
  audit_payload r workdir =
      ("tool", k.text r.tool_name)
      ∷ ("user_id", k.text r.user_id)
      ∷ ("tier", number (tier_value r.tier))
      ∷ ("allowed", flag r.allowed)
      ∷ ("reason", k.text r.reason)
      ∷ ("workdir", k.text workdir)
      ∷ []

  abbrev warn : Bool → String → String → String → GateState k → GateState k
  warn false tool_name user_id workdir s = s
  warn true tool_name user_id workdir s = record s {
    warnings = s.warnings ++ (tool_name, user_id, workdir) ∷ [];
  }

  abbrev audit_action : GateResult → String → ℕ → ChainWrite → GateState k → GateState k
  audit_action r workdir ts_ms write s = record s {
    chain = (append k "tool_call" (audit_payload r workdir) ts_ms write s.chain).1;
  }

  abbrev gate_result : CapabilityTier → String → String → GateResult
  gate_result tier tool_name user_id = record {
    allowed = true;
    tier = tier;
    reason = "allowed (SHP.4 audit-first)";
    tool_name = tool_name;
    user_id = user_id;
  }

  -- At a time, with how the write of the chain's file ends.
  unfoldable pub pre_execute_gate :
      String → Params → String → String → ℕ → ChainWrite → Action (GateState k) GateResult
  pre_execute_gate tool_name params workdir user_id ts_ms write s =
      let tier = tier_or_zero (classify_tier tool_name params) in
      let result = gate_result tier tool_name user_id in
      (
        ok result,
        audit_action result workdir ts_ms write (warn (is_tier3 tier) tool_name user_id workdir s),
      )

  -- A "manage_service" call whose `svc_action` is a nonempty list or object makes the classification
  -- raise, and the gate passes it as tier 0, with no warning.
  pub unhashable_action_is_tier0 :
      (params : Params) (workdir user_id : String) (ts_ms : ℕ) (write : ChainWrite)
      (s : GateState k)
      → params.action ≡ some (text "action")
      → params.svc_action ≡ some (container true)
      → let (out, s') = pre_execute_gate "manage_service" params workdir user_id ts_ms write s in
        (classify_tier "manage_service" params ≡ raised type_error)
        × (out ≡ ok (gate_result tier0 "manage_service" user_id))
        × (s'.warnings ≡ s.warnings)
  unfolding pre_execute_gate classify_tier contains
  unhashable_action_is_tier0 params workdir user_id ts_ms write s a c =
      let raises : classify_tier "manage_service" params ≡ raised type_error =
        ground (arith, a, c) in
      (raises, ground (arith, raises), ground (arith, raises))
